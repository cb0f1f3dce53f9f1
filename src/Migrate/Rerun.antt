-- ===== src/Migrate/Rerun.antt =====
-- A run after a run that succeeded.
use nexlog_server.Base.{
  String, ◌≡◌, refl, true, ◌||◌, List, [], ◌∷◌, ◌++◌, Option, none, some, inl, inr, Bool-cases,
  arith, All, subst,
}
use mathlib.Core.List.{append-nil}
use nexlog_server.Int.{ℤ, pos, negsuc}
use nexlog_server.Sql.{Db, Err, Outcome}
use nexlog_server.Sql.Laws.{and_then}
use nexlog_server.Migrate.{
  Migration, DirEntry, Schema, has_version, eq_int, exec_script, insert_version, run,
  collect_up_migrations,
}
use nexlog_server.Migrate.Progress.{pending, migrated, all_migrated, Progress, run-Progress}

pub eq_int_refl : (v : ℤ) → eq_int v v ≡ true
eq_int_refl (pos n) = ground arith
eq_int_refl (negsuc n) = ground arith

pub has_version-append :
    (v u : ℤ) (l : List ℤ) → has_version v (l ++ u ∷ []) ≡ (has_version v l || eq_int u v)
unfolding has_version
has_version-append v u [] = ground arith
has_version-append v u (w ∷ l) = ground (arith, has_version-append v u l)

pub and_then-some {ℓ} :
    {A : Type ℓ} (o : Option A) (f : A → Option A) (c : A)
    → and_then o f ≡ some c
    → (b : A) × (o ≡ some b) × (f b ≡ some c)
and_then-some none f c h = cc
and_then-some (some b) f c h = (b, refl, h)

-- What is recorded stays recorded.
abbrev Grows {ℓ} : {S : Type ℓ} → Schema S → Schema S → Type 0
Grows t t' = (v : ℤ) → has_version v t.versions ≡ true → has_version v t'.versions ≡ true

module _ {ℓ} {S : Type ℓ} (read_file : String → String × Err) (script : String → S → Option S) where
  inserted :
      (v : ℤ) (t t' : Schema S)
      → insert_version read_file script v t ≡ some t'
      → (has_version v t'.versions ≡ true) × Grows t t'
  inserted v t t' h = (
    ground (arith, has_version-append v v t.versions, eq_int_refl v),
    λ u old. ground (arith, has_version-append u v t.versions),
  )

  pub same_versions :
      (content : String) (t u : Schema S)
      → exec_script read_file script content t ≡ some u
      → u.versions ≡ t.versions
  same_versions content t u h = ground arith

  recorded :
      (m : Migration) (t t' : Schema S)
      → migrated read_file script m t ≡ some t'
      → (has_version m.version t'.versions ≡ true) × Grows t t'
  recorded m t t' h =
      let (u, ran, row) =
        and_then-some (exec_script read_file script (read_file m.path).0 t) _ t' h in
      let (here, grows) = inserted m.version u t' row in
      (here, λ v old. grows v (rw (same_versions (read_file m.path).0 t u ran) old))

  all_migrated_lem :
      (l : List Migration) (t t' : Schema S)
      → all_migrated read_file script l t ≡ some t'
      → All (λ m. has_version m.version t'.versions ≡ true) l × Grows t t'
  unfolding all_migrated
  all_migrated_lem [] t t' h = (tt, λ v old. ground arith)
  all_migrated_lem (m ∷ l) t t' h =
      let (u, step, rest) = and_then-some (migrated read_file script m t) _ t' h in
      let (here, first) = recorded m t u step in
      let (others, second) = all_migrated_lem l u t' rest in
      ((second m.version here, others), λ v old. second v (first v old))

none_pending :
    (old new : List ℤ) (files : List Migration)
    → All (λ m. has_version m.version new ≡ true) (pending old files)
    → ((v : ℤ) → has_version v old ≡ true → has_version v new ≡ true)
    → pending new files ≡ []
unfolding pending
none_pending old new [] all grows = refl
none_pending old new (m ∷ files) all grows = elim (Bool-cases (has_version m.version old)) [
  | inl before ↦ ground (
    arith,
    grows m.version before,
    none_pending old new files (rw (before, pending) at all) grows,
  )
  | inr now ↦
      let (here, rest) = rw (now, pending) at all in
      ground (arith, here, none_pending old new files rest grows)
]

module _ {ℓ} {S : Type ℓ} (read_file : String → String × Err) (script : String → S → Option S) where
  pub nothing_pending :
      (entries : List DirEntry) (db : Db (Schema S))
      → (run read_file script entries db).0 ≡ none
      → pending
          (run read_file script entries db).1.tables.versions
          (collect_up_migrations entries).0
        ≡ []
  nothing_pending entries db succeeded =
      let p = run-Progress read_file script entries db in
      let new = (run read_file script entries db).1.tables in
      let whole : p.done ≡ pending db.tables.versions (collect_up_migrations entries).0 =
        rw (p.complete succeeded, append-nil) at p.parts in
      let (all, grows) = all_migrated_lem read_file script p.done db.tables new p.made in
      none_pending db.tables.versions new.versions (collect_up_migrations entries).0
        (rw whole at all) grows

  -- Nothing pending leaves nothing to do.
  unchanged :
      (old : Schema S) (result : Err × Db (Schema S))
      → Progress read_file script old [] result
      → result.1.tables ≡ old
  unfolding all_migrated
  unchanged old result p =
      elim p.done
          as (λ d.
            d ++ p.left ≡ []
            → all_migrated read_file script d old ≡ some result.1.tables
            → result.1.tables ≡ old) [ [] ↦ λ parts made. ground arith | m ∷ l ↦ λ parts made. cc ]
        p.parts p.made

  -- After a run without an error, a further run of the same files changes nothing, whatever the
  -- outcomes of its calls are.
  pub run-run :
      (entries : List DirEntry) (db : Db (Schema S)) (outcomes : List Outcome)
      → (run read_file script entries db).0 ≡ none
      → (run read_file script entries
          (record (run read_file script entries db).1 { outcomes = outcomes })).1.tables
        ≡ (run read_file script entries db).1.tables
  run-run entries db outcomes succeeded =
      let again : Db (Schema S) = record (run read_file script entries db).1 {
        outcomes = outcomes;
      } in
      let p = run-Progress read_file script entries again in
      unchanged again.tables (run read_file script entries again) (
        subst (λ l. Progress read_file script again.tables l (run read_file script entries again))
          (nothing_pending entries db succeeded) p)
