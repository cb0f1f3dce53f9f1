-- ===== src/Service/Seed/Ready.antt =====
-- After a seed without an error there is a site.
use nexlog_server.Base.{
  String, ◌≡◌, refl, sym, ◌∙◌, ap, subst, List, [], ◌∷◌, map, Option, none, some, inl, inr,
  Option-cases, arith, All, All-append,
}
use nexlog_server.Json.{Codec}
use nexlog_server.Sql.{Db}
use nexlog_server.Sql.Laws.{succeeded}
use nexlog_server.Repository.Models.{Site}
use nexlog_server.Repository.Tables.{Tables}
use nexlog_server.Repository.Writes.{insert_language}
use nexlog_server.Service.Languages.{Texts}
use nexlog_server.Service.Seed.{Generate, statements, seed_if_empty, row_of}
use nexlog_server.Service.Seed.Atomic.{all_made, seed_if_empty-AllOrNothing, seed_if_empty-Extends}

abbrev pub HasSite : Tables → Type 0
HasSite t = (s : Site) × (t.site ≡ some s)

-- A statement that keeps what `P` says of the tables.
abbrev pub KeepsAll : (Tables → Type 0) → (Tables → Option Tables) → Type 0
KeepsAll P stmt = (t t' : Tables) → stmt t ≡ some t' → P t → P t'

abbrev Keeps : (Tables → Option Tables) → Type 0
Keeps = KeepsAll HasSite

abbrev tail {ℓ} : {A : Type ℓ} → List A → List A
tail [] = []
tail (x ∷ l) = l

pub all_made-none : (l : List (Tables → Option Tables)) → all_made l none ≡ none
unfolding all_made
all_made-none [] = refl
all_made-none (s ∷ l) = all_made-none l

-- The first of some statements that together succeed.
pub all_made-cons :
    (s : Tables → Option Tables) (l : List (Tables → Option Tables)) (t t' : Tables)
    → all_made (s ∷ l) (some t) ≡ some t'
    → (u : Tables) × (s t ≡ some u) × (all_made l (some u) ≡ some t')
unfolding all_made
all_made-cons s l t t' h = elim (Option-cases (s t)) [
  | inl failed ↦ let nothing : none ≡ some t' = sym (all_made-none l) ∙ (rw failed at h) in cc
  | inr (u, made) ↦ (u, made, rw made at h)
]

pub KeepsAll-all_made :
    (P : Tables → Type 0) (l : List (Tables → Option Tables)) (t t' : Tables)
    → All (KeepsAll P) l
    → all_made l (some t) ≡ some t'
    → P t
    → P t'
unfolding all_made
KeepsAll-all_made P [] t t' keeps h p = subst P (let e : t ≡ t' = ground arith in e) p
KeepsAll-all_made P (s ∷ l) t t' (keep, keeps) h p =
    let (u, made, rest) = all_made-cons s l t t' h in
    KeepsAll-all_made P l u t' keeps rest (keep t u made p)

Keeps-languages :
    (codec : Codec) (langs : List (String × Texts))
    → All Keeps (map (λ l. insert_language codec (row_of codec l.0 l.1)) langs)
unfolding insert_language
Keeps-languages codec [] = tt
Keeps-languages codec ((code, lang) ∷ langs) =
    ((λ t t' h site. (site.0, ground (arith, site.1))), Keeps-languages codec langs)

abbrev first_site : Site
first_site = record {
  company_name = "NexLog Global";
  tagline = "Connecting the World, Delivering Excellence";
}

module _ (codec : Codec) (generate : Generate) (langs : List (String × Texts)) where
  pub HasSite-statements :
      (t t' : Tables)
      → t.site ≡ none
      → all_made (statements codec generate langs) (some t) ≡ some t'
      → HasSite t'
  unfolding statements all_made
  HasSite-statements t t' no_site h =
      let keeps : All Keeps (tail (statements codec generate langs)) = (
        (λ u v e site. (site.0, ground (arith, site.1))),
        (
          (λ u v e site. (site.0, ground (arith, site.1))),
          (
            (λ u v e site. (site.0, ground (arith, site.1))),
            (
              (λ u v e site. (site.0, ground (arith, site.1))),
              (
                (λ u v e site. (site.0, ground (arith, site.1))),
                (
                  (λ u v e site. (site.0, ground (arith, site.1))),
                  (
                    (λ u v e site. (site.0, ground (arith, site.1))),
                    (
                      (λ u v e site. (site.0, ground (arith, site.1))),
                      (
                        (λ u v e site. (site.0, ground (arith, site.1))),
                        All-append Keeps _ _ (Keeps-languages codec langs)
                            ((λ u v e site. (site.0, ground (arith, site.1))), tt),
                      ),
                    ),
                  ),
                ),
              ),
            ),
          ),
        ),
      ) in
      KeepsAll-all_made HasSite (tail (statements codec generate langs))
        (record t { site = some first_site }) t' keeps (rw no_site at h) (first_site, refl)

  -- Where SeedIfEmpty returns no error there is a site.
  pub HasSite-seed_if_empty :
      (db : Db Tables)
      → (seed_if_empty codec generate langs db).0 ≡ none
      → HasSite (seed_if_empty codec generate langs db).1.tables
  HasSite-seed_if_empty db ok = elim (Option-cases db.tables.site) [
    | inr (s, there) ↦
        let kept = seed_if_empty-Extends codec generate langs db s there in
        (s, ap (λ t. t.site) kept.appended ∙ there)
    | inl no_site ↦
        HasSite-statements db.tables _ no_site
          (succeeded db.tables _ _ ok (seed_if_empty-AllOrNothing codec generate langs db no_site))
  ]
