-- ===== src/Migrate/Concurrent/Consistent.antt =====
-- What is recorded, against where each process has come to.
use nexlog_server.Base.{◌≡◌, refl, true, List, [], ◌∷◌, ◌++◌}
use nexlog_server.Int.{ℤ}
use nexlog_server.Migrate.{Migration, has_version}
use nexlog_server.Migrate.Progress.{pending}
use nexlog_server.Migrate.Rerun.{has_version-append}
use nexlog_server.Migrate.Concurrent.Pending.{AllIn, AllIn-snoc, pending-AllIn}
use nexlog_server.Migrate.Concurrent.{Place, idle, ensured, finished, stopped, looping}

module _ (files : List Migration) where
  -- What is recorded of the files before those that a process has left.
  abbrev pub Consistent : List ℤ → Place → Type 0
  Consistent v (looping applied rest) =
      (pre : List Migration) × (pre ++ rest ≡ files)
      × AllIn v pre
      × ((x : ℤ) → has_version x applied ≡ true → has_version x v ≡ true)
  Consistent v finished = AllIn v files
  Consistent v _ = Unit

  -- A process that is at its end has left nothing pending.
  abbrev pub AllDone : List ℤ → Place → Type 0
  AllDone v finished = pending v files ≡ []
  AllDone v _ = Unit

  pub AllDone-Consistent : (v : List ℤ) (p : Place) → Consistent v p → AllDone v p
  AllDone-Consistent v idle h = tt
  AllDone-Consistent v ensured h = tt
  AllDone-Consistent v stopped h = tt
  AllDone-Consistent v (looping applied rest) h = tt
  AllDone-Consistent v finished h = pending-AllIn v files h

  pub Consistent-snoc :
      (v : List ℤ) (u : ℤ) (p : Place) → Consistent v p → Consistent (v ++ u ∷ []) p
  Consistent-snoc v u idle h = tt
  Consistent-snoc v u ensured h = tt
  Consistent-snoc v u stopped h = tt
  Consistent-snoc v u finished h = AllIn-snoc v u files h
  Consistent-snoc v u (looping applied rest) (pre, parts, all, covers) = (
    pre,
    parts,
    AllIn-snoc v u pre all,
    λ x there. rw (has_version-append x u v) (rw (covers x there) refl),
  )
