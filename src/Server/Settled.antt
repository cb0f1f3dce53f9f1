-- ===== src/Server/Settled.antt =====
-- cmd/server/main.go: what the requests keep of the tables while the server runs.
use nexlog_server.Base.{String, ◌≡◌, refl, ap, subst, ◌∙◌, List, [], Option, none, some}
use nexlog_server.Http.{Request}
use nexlog_server.Repository.Tables.{Tables, update_one}
use nexlog_server.Repository.Writes.Languages.{languages_made, languages_made_lem}
use nexlog_server.Json.{Fields}
use nexlog_server.Repository.WellFormed.{
  WellFormed, WellFormed-same, WellFormed-languages_made, WellFormedIfAny,
}
use nexlog_server.Handlers.{Packages, limited_body}
use nexlog_server.Handlers.Admin.{or_end}
use nexlog_server.Handlers.Routes.{
  Guarded, password, files, site, hero, stats, about, services, news, partners, contact,
  all_languages, panel,
}
use nexlog_server.Handlers.Routes.Effects.{made_by}
use nexlog_server.Service.Seed.Ready.{HasSite}
use nexlog_server.Server.Life.{Event}
use nexlog_server.Server.History.{History, nothing, unchanged, changed}

-- Well formed, with a site.
pub record Settled (t : Tables) : Type 0 where
  pub well_formed : WellFormed t
  pub has_site : HasSite t

module _ (pk : Packages) where
  abbrev pub SettledIfAny : Option Tables → Type 0
  SettledIfAny none = Unit
  SettledIfAny (some t) = Settled t

  -- A change of none of the six tables, nor of the site.
  Settled-same :
      (t u : Tables)
      → Settled t
      → u.site ≡ t.site
      → u.languages ≡ t.languages
      → u.hero_slides ≡ t.hero_slides
      → u.stats ≡ t.stats
      → u.services ≡ t.services
      → u.news ≡ t.news
      → u.partners ≡ t.partners
      → Settled u
  Settled-same t u h kept a b c d e f = record {
    well_formed = WellFormed-same t u h.well_formed a b c d e f;
    has_site = (h.has_site.0, kept ∙ h.has_site.1);
  }

  Settled-languages :
      (langs : Fields) (t : Tables) (o : Option Tables)
      → languages_made pk.codec langs (some (record t { languages = [] })) ≡ o
      → WellFormedIfAny o
      → HasSite t
      → SettledIfAny o
  Settled-languages langs t none made w there = tt
  Settled-languages langs t (some u) made w there =
      let (rows, stored, same) = languages_made_lem pk.codec langs _ u made in
      record { well_formed = w; has_site = (there.0, ap (λ x. x.site) same ∙ there.1) }

  Settled-panel :
      (o : Option String) (t : Tables)
      → Settled t
      → SettledIfAny (elim o [
        | none ↦ none
        | some s ↦ some (record t { sidepanel = update_one s t.sidepanel })
      ])
  Settled-panel none t h = tt
  Settled-panel (some s) t h = Settled-same t _ h refl refl refl refl refl refl refl

  -- An empty list of languages has no code twice.
  no_languages : (t : Tables) → WellFormed t → WellFormed (record t { languages = [] })
  no_languages t w = record {
    codes = tt;
    slides = w.slides;
    stats = w.stats;
    services = w.services;
    news = w.news;
    partners = w.partners;
  }

  Settled-made_by :
      (r : Request) (g : Guarded) (t : Tables) → Settled t → SettledIfAny (made_by pk r g t)
  unfolding made_by
  Settled-made_by r password t h = Settled-same t _ h refl refl refl refl refl refl refl
  Settled-made_by r files t h = h
  Settled-made_by r site t h = record {
    well_formed = WellFormed-same t _ h.well_formed refl refl refl refl refl refl;
    has_site = (_, ap (update_one _) h.has_site.1);
  }
  Settled-made_by r hero t h = record {
    well_formed = record {
      codes = h.well_formed.codes;
      slides = (_, refl);
      stats = h.well_formed.stats;
      services = h.well_formed.services;
      news = h.well_formed.news;
      partners = h.well_formed.partners;
    };
    has_site = h.has_site;
  }
  Settled-made_by r stats t h = record {
    well_formed = record {
      codes = h.well_formed.codes;
      slides = h.well_formed.slides;
      stats = (_, refl);
      services = h.well_formed.services;
      news = h.well_formed.news;
      partners = h.well_formed.partners;
    };
    has_site = h.has_site;
  }
  Settled-made_by r about t h = Settled-same t _ h refl refl refl refl refl refl refl
  Settled-made_by r services t h = record {
    well_formed = record {
      codes = h.well_formed.codes;
      slides = h.well_formed.slides;
      stats = h.well_formed.stats;
      services = (_, refl);
      news = h.well_formed.news;
      partners = h.well_formed.partners;
    };
    has_site = h.has_site;
  }
  Settled-made_by r news t h = record {
    well_formed = record {
      codes = h.well_formed.codes;
      slides = h.well_formed.slides;
      stats = h.well_formed.stats;
      services = h.well_formed.services;
      news = (_, refl);
      partners = h.well_formed.partners;
    };
    has_site = h.has_site;
  }
  Settled-made_by r partners t h = record {
    well_formed = record {
      codes = h.well_formed.codes;
      slides = h.well_formed.slides;
      stats = h.well_formed.stats;
      services = h.well_formed.services;
      news = h.well_formed.news;
      partners = (_, refl);
    };
    has_site = h.has_site;
  }
  Settled-made_by r contact t h = Settled-same t _ h refl refl refl refl refl refl refl
  Settled-made_by r all_languages t h =
      Settled-languages (or_end pk (pk.decode_object (limited_body r)).0) t _ refl
        (WellFormed-languages_made pk.codec (or_end pk (pk.decode_object (limited_body r)).0) _
          (no_languages t h.well_formed))
        h.has_site
  Settled-made_by r panel t h = Settled-panel _ t h

  -- What the administrators' requests make of settled tables is settled.
  pub Settled-History :
      {secret : String} {events : List Event} {t u : Tables}
      → History pk secret events t u
      → Settled t
      → Settled u
  Settled-History nothing h = h
  Settled-History (unchanged e later) h = Settled-History later h
  Settled-History (changed {t = t} r g found bears made later) h =
      Settled-History later (subst SettledIfAny made (Settled-made_by r g t h))
