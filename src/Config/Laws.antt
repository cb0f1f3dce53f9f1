-- ===== src/Config/Laws.antt =====
-- When the configuration loads, and what an error says.
use Prim.Native.String
use Prim.Native.String.{len}
use text.Mathlib.TextLemmas.{nil-append, append_assoc}
use nexlog_server.Base.{
  ℕ, suc, ◌≤◌, String, ◌≡◌, refl, ◌∙◌, ◌≢◌, ◌↔◌, List, [], ◌∷◌, Option, none, arith, eq_iff,
  Bool-cases, inl, inr, false, ◌==◌,
}
use nexlog_server.Int.{ℤ}
use nexlog_server.Config.{Config, Env, join_errs, join_from, loaded, load, validate, config_of}

-- strings.Join
pub join : String → List String → String
join sep [] = ""
join sep (e ∷ []) = e
join sep (e ∷ f ∷ es) = String.◌++◌ e (String.◌++◌ sep (join sep (f ∷ es)))

join_from_lem :
    (i : ℕ) (e : String) (es : List String) (result : String)
    → join_from (suc i) (e ∷ es) result
      ≡ String.◌++◌ result (String.◌++◌ "\n  - " (join "\n  - " (e ∷ es)))
unfolding join_from join
join_from_lem i e [] result = append_assoc result "\n  - " e
join_from_lem i e (f ∷ es) result =
    join_from_lem (suc i) f es (String.◌++◌ (String.◌++◌ result "\n  - ") e) ∙ simp append_assoc

-- The loop of joinErrs is strings.Join with the separator of a list.
pub join_errs-eq-join : (errs : List String) → join_errs errs ≡ join "\n  - " errs
unfolding join_errs join
join_errs-eq-join [] = refl
join_errs-eq-join (e ∷ []) = nil-append e
join_errs-eq-join (e ∷ f ∷ es) = join_from_lem 0 f es (String.◌++◌ "" e) ∙ simp nil-append

not_empty : (s : String) → 32 ≤ len s → (s == "") ≡ false
not_empty s h = elim (Bool-cases (s == "")) [
  | inl empty ↦
      let zero_length : len s ≡ 0 = rw ((eq_iff s "").0 empty) refl in absurd (omega arith)
  | inr other ↦ other
]

module _ (parse_duration : String → Option ℤ) (env : Env) where
  -- The configuration loads exactly if the secret has at least 32 bytes and the address of the
  -- database is set.
  pub load_iff :
      ((c : Config) × (load parse_duration env ≡ loaded c))
      ↔ ((32 ≤ len (env "JWT_SECRET")) × (env "DATABASE_URL" ≢ ""))
  unfolding load
  load_iff = (
    λ (c, h).
        (ground (arith, h), λ unset. ground (arith, h, (eq_iff (env "DATABASE_URL") "").1 unset)),
    λ (long, set). (
      config_of parse_duration env,
      ground (arith, not_empty (env "JWT_SECRET") long, eq_iff (env "DATABASE_URL") ""),
    ),
  )

  -- A loaded configuration has the secret and the address that are set, and passes Validate.
  pub load_sound :
      (c : Config)
      → load parse_duration env ≡ loaded c
      → (c.jwt_secret ≡ env "JWT_SECRET")
        × (c.database_url ≡ env "DATABASE_URL")
        × (validate c ≡ none)
  unfolding load validate
  load_sound c h = ground (arith, load_iff.0 (c, h), not_empty (env "JWT_SECRET"))
