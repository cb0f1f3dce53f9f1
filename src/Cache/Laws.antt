-- ===== src/Cache/Laws.antt =====
-- What one method of the cache shows to a later `Get`.
use nexlog_server.Base.{
  ◌⊎◌, inl, inr, Option-cases, Bool-cases, ℕ, ◌+◌, ◌≤◌, String, ◌≡◌, refl, none, some, arith,
  eq_iff, ltb, if◌then◌else◌, ◌==◌,
}
use nexlog_server.Cache.{Cache, new, set, get, flush, evict}

module _ {ℓ} {V : Type ℓ} where
  pub get-new : (ttl later : ℕ) (k : String) → get later k (new {V = V} ttl) ≡ none
  unfolding get new
  get-new ttl later k = refl

  -- A `Get` after a `Set`: the written key has the value until its time to live has passed, and
  -- every other key reads as before.
  pub get-set :
      (c : Cache V) (now later : ℕ) (k j : String) (v : V)
      → get later j (set now k v c)
        ≡ (if k == j then (if ltb (now + c.ttl) later then none else some v) else get later j c)
  unfolding get set
  get-set c now later k j v = ground arith

  pub get-flush : (c : Cache V) (later : ℕ) (k : String) → get later k (flush c) ≡ none
  unfolding get flush
  get-flush c later k = refl

  pub get-evict :
      (now later : ℕ) (k : String) (c : Cache V)
      → now ≤ later
      → get later k (evict now c) ≡ get later k c
  unfolding get evict
  get-evict now later k c h = ground arith

  -- An entry is evicted as a whole or kept.
  pub get-evict_cases :
      (now later : ℕ) (k : String) (c : Cache V)
      → (get later k (evict now c) ≡ none) ⊎ (get later k (evict now c) ≡ get later k c)
  unfolding get evict
  get-evict_cases now later k c = elim (Option-cases (c.m k)) [
    | inl missing ↦ inl (rw missing refl)
    | inr (e, there) ↦ elim (Bool-cases (ltb e.expires_at now)) [
      | inl expired ↦ inl (rw (there, expired) refl)
      | inr kept ↦ inr (rw (there, kept) refl)
    ]
  ]

  -- What is written is there for the time to live.
  pub get-set_fresh :
      (c : Cache V) (now later : ℕ) (k : String) (v : V)
      → later ≤ now + c.ttl
      → get later k (set now k v c) ≡ some v
  unfolding get set
  get-set_fresh c now later k v soon = ground (arith, eq_iff k k)

  pub get-set-flush :
      (c : Cache V) (now later : ℕ) (k : String) (v : V)
      → later ≤ now + c.ttl
      → get later k (set now k v (flush c)) ≡ some v
  unfolding flush
  get-set-flush c now later k v soon = get-set_fresh (flush c) now later k v soon
