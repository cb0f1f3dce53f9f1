-- ===== src/Migrate/Concurrent/Prefix.antt =====
-- What any number of runs at once leave applied.
use nexlog_server.Base.{
  if_cases, some_injective, ℕ, ◌≡◌, refl, sym, ◌∙◌, ap, subst, true, List, [], ◌∷◌, ◌++◌, Option,
  none, some, All-append, nat_eq, inl, inr, if_both, String, if◌then◌else◌,
}
use mathlib.Core.List.{append_assoc, append-nil}
use nexlog_server.Int.{ℤ}
use nexlog_server.Sql.{Db, Err, Outcome, fine, refused, lost, query, head_outcome, rows_outcome}
use nexlog_server.Sql.Laws.{AllOrNothing, exec-AllOrNothing}
use nexlog_server.Migrate.{Migration, Schema, has_version}
use nexlog_server.Migrate.Progress.{pending, all_migrated, migrated, apply_one-AllOrNothing}
use nexlog_server.Migrate.Rerun.{has_version-append}
use nexlog_server.Migrate.Concurrent.Pending.{
  UniqueVersions, AllIn, AllIn-snoc, pending-append, pending-snoc, or_self, pending_new,
  pending_old, UniqueVersions-suffix,
}
use nexlog_server.Migrate.Concurrent.Recorded.{migrated_versions, all_migrated-snoc}
use nexlog_server.Migrate.Concurrent.Consistent.{
  Consistent, AllDone, AllDone-Consistent, Consistent-snoc,
}
use nexlog_server.Migrate.Concurrent.{
  Place, ensured, finished, stopped, looping, System, move, after_ensure, after_read, after_round,
  Step, ensures, reads, rounds, ends, Reach, start, later,
}

module _ {ℓ} {S : Type ℓ} (read_file : String → String × Err) (script : String → S → Option S)
    (files : List Migration) where
  record Inv (old : Schema S) (s : System read_file script files) : Type ℓ where
    pub done : List Migration
    pub parts : done ++ pending s.db.tables.versions files ≡ pending old.versions files
    pub made : all_migrated read_file script done old ≡ some s.db.tables
    pub places : (i : ℕ) → Consistent files s.db.tables.versions (s.place i)

  module _ (old : Schema S) (s : System read_file script files) (v : Inv old s) (i : ℕ) where
    -- A step that leaves the tables alone.
    Inv-same :
        (p : Place) (db : Db (Schema S))
        → db.tables ≡ s.db.tables
        → Consistent files s.db.tables.versions p
        → Inv old (move read_file script files i (p, db) s)
    Inv-same p db same fits = record {
      done = v.done;
      parts =
          subst (λ t. v.done ++ pending t.versions files ≡ pending old.versions files) (sym same)
            v.parts;
      made = v.made ∙ ap some (sym same);
      places = λ j.
          subst (λ t. Consistent files t.versions (if nat_eq i j then p else s.place j)) (sym same)
            (if_both (Consistent files s.db.tables.versions) (nat_eq i j) p (s.place j) fits
              (v.places j));
    }

    module _ (unique : UniqueVersions files) (applied : List ℤ) (m : Migration)
        (rest : List Migration) (here : s.place i ≡ looping applied (m ∷ rest)) where
      -- A step that applies a migration.
      Inv-migrated :
          (p : Place) (db : Db (Schema S))
          → migrated read_file script m s.db.tables ≡ some db.tables
          → Consistent files db.tables.versions p
          → Inv old (move read_file script files i (p, db) s)
      Inv-migrated p db made fits =
          let (pre, parts, all, covers) =
            subst (Consistent files s.db.tables.versions) here (v.places i) in
          let (new, grown) = migrated_versions read_file script m s.db.tables db.tables made in
          let w = s.db.tables.versions in
          let others = UniqueVersions-suffix pre m rest (subst UniqueVersions (sym parts) unique) in
          let before : pending w files ≡ m ∷ pending w rest =
            ap (pending w) (sym parts)
            ∙ (pending-append w pre (m ∷ rest) all ∙ pending_new w m rest new) in
          let after : pending db.tables.versions files ≡ pending w rest =
            ap (pending db.tables.versions) (sym parts)
            ∙ (ap (λ l. pending l (pre ++ m ∷ rest)) grown
                ∙ (pending-append (w ++ m.version ∷ []) pre (m ∷ rest)
                      (AllIn-snoc w m.version pre all)
                    ∙ (pending_old w m rest ∙ pending-snoc w m.version rest others))) in
          record {
            done = v.done ++ m ∷ [];
            parts =
                ap (λ l. (v.done ++ m ∷ []) ++ l) after
                ∙ (append_assoc v.done (m ∷ []) (pending w rest)
                    ∙ (ap (λ l. v.done ++ l) (sym before) ∙ v.parts));
            made =
                all_migrated-snoc read_file script v.done m old s.db.tables db.tables v.made made;
            places = λ j.
                if_both (Consistent files db.tables.versions) (nat_eq i j) p (s.place j) fits (
                  subst (λ l. Consistent files l (s.place j)) (sym grown)
                    (Consistent-snoc files w m.version (s.place j) (v.places j)));
          }

      Inv-after_round :
          (result : Err × Db (Schema S))
          → AllOrNothing s.db.tables (migrated read_file script m s.db.tables) result
          → Inv old (
              move read_file script files i
                (after_round read_file script files applied rest result)
                s)
      Inv-after_round (some e, db) (inl same) = Inv-same stopped db same tt
      Inv-after_round (some e, db) (inr made) = Inv-migrated stopped db made tt
      Inv-after_round (none, db) made =
          let (pre, parts, all, covers) =
            subst (Consistent files s.db.tables.versions) here (v.places i) in
          let (new, grown) = migrated_versions read_file script m s.db.tables db.tables made in
          let w = s.db.tables.versions in
          Inv-migrated (looping applied rest) db made (
            subst (λ l. Consistent files l (looping applied rest)) (sym grown)
              (
                pre ++ m ∷ [],
                append_assoc pre (m ∷ []) rest ∙ parts,
                All-append _ pre (m ∷ []) (AllIn-snoc w m.version pre all) (
                  rw (has_version-append m.version m.version w)
                      (or_self (has_version m.version w) m.version),
                  tt,
                ),
                λ x there. rw (has_version-append x m.version w) (rw (covers x there) refl),
              ))

    Inv-after_ensure :
        (result : Err × Db (Schema S))
        → AllOrNothing s.db.tables (some s.db.tables) result
        → Inv old (move read_file script files i (after_ensure read_file script files result) s)
    Inv-after_ensure (none, db) same = Inv-same ensured db (sym (some_injective _ _ same)) tt
    Inv-after_ensure (some e, db) (inl same) = Inv-same stopped db same tt
    Inv-after_ensure (some e, db) (inr same) =
        Inv-same stopped db (sym (some_injective _ _ same)) tt

    Inv-after_read :
        (o : Outcome) (db : Db (Schema S))
        → db.tables ≡ s.db.tables
        → Inv old (
            move read_file script files i
              (after_read read_file script files (rows_outcome o s.db.tables.versions, db))
              s)
    Inv-after_read fine db same =
        Inv-same (looping s.db.tables.versions files) db same ([], refl, tt, λ x there. there)
    Inv-after_read (refused e) db same = Inv-same stopped db same tt
    Inv-after_read (lost n e) db same = Inv-same stopped db same tt

    -- A file whose version was read is skipped.
    Inv-skip :
        (applied : List ℤ) (m : Migration) (rest : List Migration)
        → s.place i ≡ looping applied (m ∷ rest)
        → has_version m.version applied ≡ true
        → Inv old (move read_file script files i (looping applied rest, s.db) s)
    Inv-skip applied m rest here there =
        let (pre, parts, all, covers) =
          subst (Consistent files s.db.tables.versions) here (v.places i) in
        Inv-same (looping applied rest) s.db refl (
          pre ++ m ∷ [],
          append_assoc pre (m ∷ []) rest ∙ parts,
          All-append _ pre (m ∷ []) all (covers m.version there, tt),
          covers,
        )

  module _ (unique : UniqueVersions files) (old : Schema S) where
    Inv-Step :
        {s t : System read_file script files}
        → Inv old s
        → Step read_file script files s t
        → Inv old t
    unfolding query
    Inv-Step {s} v (ensures i free) =
        Inv-after_ensure old s v i _ (exec-AllOrNothing (λ t. some t) s.db)
    Inv-Step {s} v (reads i here) = Inv-after_read old s v i (head_outcome s.db.outcomes) _ refl
    Inv-Step {s} v (rounds i applied m rest here) =
        if_cases {A = Place × Db (Schema S)} (λ x. Inv old (move read_file script files i x s))
          (has_version m.version applied) _ _ (Inv-skip old s v i applied m rest here)
          λ new.
            Inv-after_round old s v i unique applied m rest here _
              (apply_one-AllOrNothing read_file script m s.db)
    Inv-Step {s} v (ends i applied here) =
        let (pre, parts, all, covers) =
          subst (Consistent files s.db.tables.versions) here (v.places i) in
        Inv-same old s v i finished s.db refl
          (subst (AllIn s.db.tables.versions) (sym (append-nil pre) ∙ parts) all)

    Inv-Reach :
        {db : Db (Schema S)} {s : System read_file script files}
        → db.tables ≡ old
        → Reach read_file script files db s
        → Inv old s
    unfolding all_migrated
    Inv-Reach {db} same start = record {
      done = [];
      parts = ap (λ t. pending t.versions files) same;
      made = ap some (sym same);
      places = λ i. tt;
    }
    Inv-Reach same (later reach step) = Inv-Step (Inv-Reach same reach) step

  -- Any number of processes migrate one database at once, over the same files, no two of which have
  -- the same version; each of their calls may fail, or lose its answer. At every moment the database
  -- is as the first of the files that were not recorded, up to some point, make it, each of them once
  -- and in their order, and the others have left no trace; and all of them are applied as soon as one
  -- process has come to its end without an error.
  pub Reach-pending :
      (db : Db (Schema S)) (s : System read_file script files) (i : ℕ)
      → UniqueVersions files
      → Reach read_file script files db s
      → (done : List Migration) × (done ++ pending s.db.tables.versions files
          ≡ pending db.tables.versions files)
        × (all_migrated read_file script done db.tables ≡ some s.db.tables)
        × AllDone files s.db.tables.versions (s.place i)
  Reach-pending db s i unique reach =
      let v = Inv-Reach unique db.tables refl reach in
      (
        v.done,
        v.parts,
        v.made,
        AllDone-Consistent files s.db.tables.versions (s.place i) (v.places i),
      )
