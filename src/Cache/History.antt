-- ===== src/Cache/History.antt =====
-- The cache against its history: the spec knows nothing of entries, expiry times or eviction.
use nexlog_server.Base.{
  ℕ, ◌+◌, ◌≤◌, String, ◌≡◌, refl, ◌∙◌, Option, none, some, List, [], ◌∷◌, arith, ltb, if◌then◌else◌,
  ◌==◌,
}
use nexlog_server.Cache.{Cache, new, set, get, flush, evict}
use nexlog_server.Cache.Laws.{get-new, get-set, get-flush, get-evict}

-- The calls that write to the cache.
pub data Op {ℓ} (V : Type ℓ) : Type ℓ where
  put : String → V → Op V
  clear : Op V
  tick : Op V

-- The calls so far, each with the clock's reading, the latest first.
abbrev pub History {ℓ} : Type ℓ → Type ℓ
History V = List (ℕ × Op V)

module _ {ℓ} {V : Type ℓ} where
  pub step : ℕ → Op V → Cache V → Cache V
  step now (put k v) c = set now k v c
  step now clear c = flush c
  step now tick c = evict now c

  pub run : ℕ → History V → Cache V
  run ttl [] = new ttl
  run ttl ((t, op) ∷ h) = step t op (run ttl h)

  -- The clock never goes back, and `now` is not before the last call.
  abbrev pub IsOrdered : ℕ → History V → Type 0
  IsOrdered now [] = Unit
  IsOrdered now ((t, op) ∷ h) = (t ≤ now) × IsOrdered t h

  -- The last value written under the key since the last flush, with the time of the write.
  pub latest : String → History V → Option (ℕ × V)
  latest k [] = none
  latest k ((t, put j v) ∷ h) = if j == k then some (t, v) else latest k h
  latest k ((t, clear) ∷ h) = none
  latest k ((t, tick) ∷ h) = latest k h

  abbrev pub within : ℕ → ℕ → Option (ℕ × V) → Option V
  within ttl now none = none
  within ttl now (some (t, v)) = if ltb (t + ttl) now then none else some v

  ttl-run : (ttl : ℕ) (h : History V) → (run ttl h).ttl ≡ ttl
  unfolding run step new set flush evict
  ttl-run ttl [] = refl
  ttl-run ttl ((t, put k v) ∷ h) = ttl-run ttl h
  ttl-run ttl ((t, clear) ∷ h) = ttl-run ttl h
  ttl-run ttl ((t, tick) ∷ h) = ttl-run ttl h

  IsOrdered-later : (t now : ℕ) (h : History V) → t ≤ now → IsOrdered t h → IsOrdered now h
  IsOrdered-later t now [] p o = tt
  IsOrdered-later t now ((s, op) ∷ h) p (q, o) = (omega arith, o)

  -- After any writes, flushes and evictions in the order of their times, a `Get` returns the last
  -- value written under its key since the last flush if at most `ttl` has passed since that write,
  -- and nothing otherwise.
  pub get-run :
      (ttl now : ℕ) (k : String) (h : History V)
      → IsOrdered now h
      → get now k (run ttl h) ≡ within ttl now (latest k h)
  unfolding run step latest
  get-run ttl now k [] o = get-new ttl now k
  get-run ttl now k ((t, put j v) ∷ h) (p, o) = ground (
    arith,
    get-set (run ttl h) t now j k v,
    ttl-run ttl h,
    get-run ttl now k h (IsOrdered-later t now h p o),
  )
  get-run ttl now k ((t, clear) ∷ h) (p, o) = get-flush (run ttl h) now k
  get-run ttl now k ((t, tick) ∷ h) (p, o) =
      get-evict t now k (run ttl h) p ∙ get-run ttl now k h (IsOrdered-later t now h p o)
