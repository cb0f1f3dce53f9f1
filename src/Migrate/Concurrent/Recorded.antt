-- ===== src/Migrate/Concurrent/Recorded.antt =====
-- What a migration that succeeds records.
use nexlog_server.Base.{
  some_injective, ◌≡◌, refl, sym, ap, subst, false, List, [], ◌∷◌, ◌++◌, Option, none, some, inl,
  inr, Bool-cases, String,
}
use nexlog_server.Sql.{Err}
use nexlog_server.Sql.Laws.{and_then}
use nexlog_server.Migrate.{Migration, Schema, has_version, exec_script}
use nexlog_server.Migrate.Progress.{all_migrated, migrated}
use nexlog_server.Migrate.Rerun.{same_versions, and_then-some}

module _ {ℓ} {S : Type ℓ} (read_file : String → String × Err) (script : String → S → Option S) where
  -- A migration that succeeded was not recorded, and is now.
  pub migrated_versions :
      (m : Migration) (t u : Schema S)
      → migrated read_file script m t ≡ some u
      → (has_version m.version t.versions ≡ false) × (u.versions ≡ t.versions ++ m.version ∷ [])
  migrated_versions m t u h =
      let (x, ran, row) =
        and_then-some (exec_script read_file script (read_file m.path).0 t) _ u h in
      let same : x.versions ≡ t.versions =
        same_versions read_file script (read_file m.path).0 t x ran in
      elim (Bool-cases (has_version m.version x.versions)) [
        | inl there ↦ let failed : none ≡ some u = rw there at row in cc
        | inr new ↦
            let is : record x { versions = x.versions ++ m.version ∷ [] } ≡ u =
              some_injective _ u (rw new at row) in
            (
              subst (λ l. has_version m.version l ≡ false) same new,
              subst (λ l. u.versions ≡ l ++ m.version ∷ []) same (sym (ap (λ y. y.versions) is)),
            )
      ]

  pub all_migrated-snoc :
      (l : List Migration) (m : Migration) (s t u : Schema S)
      → all_migrated read_file script l s ≡ some t
      → migrated read_file script m t ≡ some u
      → all_migrated read_file script (l ++ m ∷ []) s ≡ some u
  unfolding all_migrated
  all_migrated-snoc [] m s t u made step = rw step at (
      subst
        (λ x.
          and_then (migrated read_file script m x) (λ y. some y)
          ≡ and_then (migrated read_file script m t) (λ y. some y))
        (sym (some_injective s t made)) refl)
  all_migrated-snoc (n ∷ l) m s t u made step =
      let (v, first, rest) = and_then-some (migrated read_file script n s) _ t made in
      rw first (all_migrated-snoc l m v t u rest step)
