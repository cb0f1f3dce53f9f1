-- ===== src/Http/Untouched.antt =====
-- Header entries that a handler's calls leave alone.
use nexlog_server.Base.{String, ◌≡◌, refl, ◌∙◌, ◌≢◌, List, [], ◌∷◌, ◌++◌, some, arith, eq_iff}
use nexlog_server.GoMap
use nexlog_server.Http.{Action, set_header, del_header, write_header, write, Header}
use nexlog_server.Http.Laws.{header_from}

-- None of the calls sets or deletes the entry.
abbrev pub Leaves : String → List Action → Type 0
Leaves k [] = Unit
Leaves k (set_header j v ∷ l) = (j ≢ k) × Leaves k l
Leaves k (del_header j ∷ l) = (j ≢ k) × Leaves k l
Leaves k (write_header c ∷ l) = Leaves k l
Leaves k (write b ∷ l) = Leaves k l

pub header_from-Leaves :
    (k : String) (h : Header) (l : List Action) → Leaves k l → header_from h l k ≡ h k
unfolding header_from
header_from-Leaves k h [] ok = refl
header_from-Leaves k h (set_header j v ∷ l) (ne, ok) =
    header_from-Leaves k (GoMap.insert j v h) l ok ∙ ground (arith, eq_iff j k)
header_from-Leaves k h (del_header j ∷ l) (ne, ok) =
    header_from-Leaves k (GoMap.erase j h) l ok ∙ ground (arith, eq_iff j k)
header_from-Leaves k h (write_header c ∷ l) ok = refl
header_from-Leaves k h (write b ∷ l) ok = refl

pub Leaves-append :
    (k : String) (xs ys : List Action) → Leaves k xs → Leaves k ys → Leaves k (xs ++ ys)
Leaves-append k [] ys hx hy = hy
Leaves-append k (set_header j v ∷ l) ys (ne, hx) hy = (ne, Leaves-append k l ys hx hy)
Leaves-append k (del_header j ∷ l) ys (ne, hx) hy = (ne, Leaves-append k l ys hx hy)
Leaves-append k (write_header c ∷ l) ys hx hy = Leaves-append k l ys hx hy
Leaves-append k (write b ∷ l) ys hx hy = Leaves-append k l ys hx hy

-- Every call that sets the entry sets it to `v`, and none deletes it.
abbrev pub Keeps : String → String → List Action → Type 0
Keeps k v [] = Unit
Keeps k v (set_header j u ∷ l) = (j ≡ k → u ≡ v) × Keeps k v l
Keeps k v (del_header j ∷ l) = (j ≢ k) × Keeps k v l
Keeps k v (write_header c ∷ l) = Keeps k v l
Keeps k v (write b ∷ l) = Keeps k v l

pub header_from-Keeps :
    (k v : String) (h : Header) (l : List Action)
    → Keeps k v l
    → h k ≡ some v
    → header_from h l k ≡ some v
unfolding header_from
header_from-Keeps k v h [] ok e = e
header_from-Keeps k v h (set_header j u ∷ l) (same, ok) e =
    header_from-Keeps k v (GoMap.insert j u h) l ok (ground (arith, eq_iff j k))
header_from-Keeps k v h (del_header j ∷ l) (ne, ok) e =
    header_from-Keeps k v (GoMap.erase j h) l ok (ground (arith, eq_iff j k))
header_from-Keeps k v h (write_header c ∷ l) ok e = e
header_from-Keeps k v h (write b ∷ l) ok e = e

pub Keeps-of_Leaves : (k v : String) (l : List Action) → Leaves k l → Keeps k v l
Keeps-of_Leaves k v [] ok = tt
Keeps-of_Leaves k v (set_header j u ∷ l) (ne, ok) = (λ e. absurd (ne e), Keeps-of_Leaves k v l ok)
Keeps-of_Leaves k v (del_header j ∷ l) (ne, ok) = (ne, Keeps-of_Leaves k v l ok)
Keeps-of_Leaves k v (write_header c ∷ l) ok = Keeps-of_Leaves k v l ok
Keeps-of_Leaves k v (write b ∷ l) ok = Keeps-of_Leaves k v l ok
