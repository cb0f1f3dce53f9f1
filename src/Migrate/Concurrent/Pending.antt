-- ===== src/Migrate/Concurrent/Pending.antt =====
-- What is pending where more is recorded.
use nexlog_server.Base.{◌≡◌, refl, ◌∙◌, Bool, true, false, ◌||◌, List, [], ◌∷◌, ◌++◌, All, arith}
use nexlog_server.Int.{ℤ}
use nexlog_server.Migrate.{Migration, has_version, eq_int}
use nexlog_server.Migrate.Progress.{pending}
use nexlog_server.Migrate.Rerun.{has_version-append, eq_int_refl}

-- No two files have the same version.
abbrev pub UniqueVersions : List Migration → Type 0
UniqueVersions [] = Unit
UniqueVersions (m ∷ l) = All (λ n. eq_int m.version n.version ≡ false) l × UniqueVersions l

-- The versions of the files are all in the list.
abbrev pub AllIn : List ℤ → List Migration → Type 0
AllIn v = All (λ m. has_version m.version v ≡ true)

pub AllIn-snoc : (v : List ℤ) (u : ℤ) (l : List Migration) → AllIn v l → AllIn (v ++ u ∷ []) l
AllIn-snoc v u [] all = tt
AllIn-snoc v u (m ∷ l) (here, all) =
    (ground (arith, has_version-append m.version u v), AllIn-snoc v u l all)

pub pending-append :
    (v : List ℤ) (pre rest : List Migration)
    → AllIn v pre
    → pending v (pre ++ rest) ≡ pending v rest
unfolding pending
pending-append v [] rest all = refl
pending-append v (m ∷ pre) rest (here, all) = rw here (pending-append v pre rest all)

pub pending-snoc :
    (v : List ℤ) (u : ℤ) (rest : List Migration)
    → All (λ n. eq_int u n.version ≡ false) rest
    → pending (v ++ u ∷ []) rest ≡ pending v rest
unfolding pending has_version
pending-snoc v u [] all = refl
pending-snoc v u (m ∷ rest) (here, all) =
    ground (arith, has_version-append m.version u v, pending-snoc v u rest all)

pub or_self : (b : Bool) (v : ℤ) → (b || eq_int v v) ≡ true
or_self true v = refl
or_self false v = eq_int_refl v

pub pending_new :
    (v : List ℤ) (m : Migration) (rest : List Migration)
    → has_version m.version v ≡ false
    → pending v (m ∷ rest) ≡ m ∷ pending v rest
unfolding pending
pending_new v m rest new = rw new refl

pub pending_old :
    (v : List ℤ) (m : Migration) (rest : List Migration)
    → pending (v ++ m.version ∷ []) (m ∷ rest) ≡ pending (v ++ m.version ∷ []) rest
unfolding pending
pending_old v m rest =
    let there : has_version m.version (v ++ m.version ∷ []) ≡ true =
      has_version-append m.version m.version v ∙ or_self (has_version m.version v) m.version in
    rw there refl

pub pending-AllIn : (v : List ℤ) (l : List Migration) → AllIn v l → pending v l ≡ []
unfolding pending
pending-AllIn v [] all = refl
pending-AllIn v (m ∷ l) (here, all) = rw here (pending-AllIn v l all)

pub UniqueVersions-suffix :
    (pre : List Migration) (m : Migration) (rest : List Migration)
    → UniqueVersions (pre ++ m ∷ rest)
    → All (λ n. eq_int m.version n.version ≡ false) rest
UniqueVersions-suffix [] m rest unique = unique.0
UniqueVersions-suffix (n ∷ pre) m rest unique = UniqueVersions-suffix pre m rest unique.1
