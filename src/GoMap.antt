-- ===== src/GoMap.antt =====
-- Go's `map[string]V`, as a function from keys: a missing key is `none`. The order of iteration,
-- which Go leaves open, does not show: a loop that deletes entries is `keep`.
use nexlog_server.Base.{String, Bool, Option, none, some, if◌then◌else◌, ◌==◌}

abbrev pub GoMap {ℓ} : Type ℓ → Type ℓ
GoMap V = String → Option V

module _ {ℓ} {V : Type ℓ} where
  -- `make(map[string]V)`
  abbrev pub empty : GoMap V
  empty k = none

  -- `m[k] = v`
  abbrev pub insert : String → V → GoMap V → GoMap V
  insert k v m j = if k == j then some v else m j

  -- `delete(m, k)`
  abbrev pub erase : String → GoMap V → GoMap V
  erase k m j = if k == j then none else m j

  abbrev pub keep_value : (V → Bool) → Option V → Option V
  keep_value p none = none
  keep_value p (some v) = if p v then some v else none

  -- `for k, v := range m { if !p(v) { delete(m, k) } }`
  abbrev pub keep : (V → Bool) → GoMap V → GoMap V
  keep p m j = keep_value p (m j)
