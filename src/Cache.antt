-- ===== src/Cache.antt =====
-- internal/cache/cache.go: the in-memory cache with a time to live. A method that reads the clock
-- takes the reading (nanoseconds) as `now`. Each method runs under the cache's lock, so that
-- concurrent use is a sequence of these steps.
pub mod Laws
pub mod History
mod Tests
use nexlog_server.Base.{ℕ, ◌+◌, String, Option, none, some, not, ltb, if◌then◌else◌}
use nexlog_server.GoMap
use nexlog_server.GoMap.{GoMap}

pub record Entry {ℓ} (V : Type ℓ) : Type ℓ where
  pub value : V
  pub expires_at : ℕ

pub record Cache {ℓ} (V : Type ℓ) : Type ℓ where
  pub m : GoMap (Entry V)
  pub ttl : ℕ

module _ {ℓ} {V : Type ℓ} where
  unfoldable pub new : ℕ → Cache V
  new ttl = record { m = GoMap.empty; ttl = ttl }

  unfoldable pub set : ℕ → String → V → Cache V → Cache V
  set now key val c = record c {
    m = GoMap.insert key (record { value = val; expires_at = now + c.ttl }) c.m;
  }

  abbrev read_entry : ℕ → Option (Entry V) → Option V
  read_entry now none = none
  read_entry now (some e) = if ltb e.expires_at now then none else some e.value

  -- `none` is the result `nil, false`.
  unfoldable pub get : ℕ → String → Cache V → Option V
  get now key c = read_entry now (c.m key)

  unfoldable pub flush : Cache V → Cache V
  flush c = record c { m = GoMap.empty }

  -- One tick of the goroutine started by `New`.
  unfoldable pub evict : ℕ → Cache V → Cache V
  evict now c = record c { m = GoMap.keep (λ e. not (ltb e.expires_at now)) c.m }
