-- ===== src/Service.antt =====
-- internal/service/service.go: what the handlers call. Each method of the service adds a time limit
-- of eight seconds to the context and calls the repository; a limit that expires is an outcome of
-- the database call.
pub mod Languages
pub mod Seed
use nexlog_server.Base.{String, List, Option}
use nexlog_server.Json.{Fields, Codec}
use nexlog_server.Sql.{Db, Err}
use nexlog_server.Repository.Models.{
  Site, HeroSlide, Stat, About, Service, NewsItem, Partner, Contact,
}
use nexlog_server.Repository.Tables.{Tables}
use nexlog_server.Repository.Reads
use nexlog_server.Repository.Writes

abbrev pub get_site : Db Tables → (Site × Err) × Db Tables
get_site = Reads.get_site

abbrev pub get_hero_slides : Db Tables → (Option (List HeroSlide) × Err) × Db Tables
get_hero_slides = Reads.get_hero_slides

abbrev pub get_stats : Db Tables → (Option (List Stat) × Err) × Db Tables
get_stats = Reads.get_stats

abbrev pub get_about : Db Tables → (About × Err) × Db Tables
get_about = Reads.get_about

abbrev pub get_services : Db Tables → (Option (List Service) × Err) × Db Tables
get_services = Reads.get_services

abbrev pub get_news : Db Tables → (Option (List NewsItem) × Err) × Db Tables
get_news = Reads.get_news

abbrev pub get_partners : Db Tables → (Option (List Partner) × Err) × Db Tables
get_partners = Reads.get_partners

abbrev pub get_contact : Db Tables → (Contact × Err) × Db Tables
get_contact = Reads.get_contact

abbrev pub get_languages : Codec → Db Tables → (Option Fields × Err) × Db Tables
get_languages = Reads.get_languages

abbrev pub get_side_panel : Codec → Db Tables → (Option Fields × Err) × Db Tables
get_side_panel = Reads.get_side_panel

abbrev pub get_admin_password_hash : Db Tables → (String × Err) × Db Tables
get_admin_password_hash = Reads.get_admin_password_hash

abbrev pub update_site : Site → Db Tables → Err × Db Tables
update_site = Writes.update_site

abbrev pub update_hero_slides : List HeroSlide → Db Tables → Err × Db Tables
update_hero_slides = Writes.update_hero_slides

abbrev pub update_stats : List Stat → Db Tables → Err × Db Tables
update_stats = Writes.update_stats

abbrev pub update_about : About → Db Tables → Err × Db Tables
update_about = Writes.update_about

abbrev pub update_services : List Service → Db Tables → Err × Db Tables
update_services = Writes.update_services

abbrev pub update_news : List NewsItem → Db Tables → Err × Db Tables
update_news = Writes.update_news

abbrev pub update_partners : List Partner → Db Tables → Err × Db Tables
update_partners = Writes.update_partners

abbrev pub update_contact : Contact → Db Tables → Err × Db Tables
update_contact = Writes.update_contact

abbrev pub update_admin_password : String → Db Tables → Err × Db Tables
update_admin_password = Writes.update_admin_password

abbrev pub update_languages : Codec → Fields → Db Tables → Err × Db Tables
update_languages = Writes.update_languages

abbrev pub update_side_panel : Codec → Option Fields → Db Tables → Err × Db Tables
update_side_panel = Writes.update_side_panel
