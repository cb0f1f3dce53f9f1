-- ===== src/Service/Seed/Tests.antt =====
-- The seed of concrete tables.
use nexlog_server.Base.{String, refl, List, [], ◌∷◌, none, some}
use nexlog_server.Json.{Codec}
use nexlog_server.Samples.{some_db, plain_packages}
use nexlog_server.Sql
use nexlog_server.Sql.{Db}
use nexlog_server.Sql.Laws.{AllOrNothing}
use nexlog_server.Repository.Tables.{Tables}
use nexlog_server.Service.Languages.{Texts}
use nexlog_server.Service.Seed.{Generate, statements, seed_if_empty}
use nexlog_server.Service.Seed.Atomic.{all_made, seed_if_empty-AllOrNothing}

abbrev codec : Codec
codec = plain_packages.codec

abbrev two : List (String × Texts)
two =
    ("en", ("flag", "🇬🇧") ∷ ("name", "English") ∷ ("years", "Years") ∷ [])
    ∷ ("ja", ("flag", "🇯🇵") ∷ ("name", "日本語") ∷ [])
    ∷ []

abbrev some_hash : Generate
some_hash password = ("hash", none)

abbrev losing : Db Tables
losing = record some_db { outcomes = Sql.fine ∷ Sql.lost 0 "timeout" ∷ [] }

abbrev without_site : Db Tables
without_site = record losing { tables = record losing.tables { site = none } }

seed_if_empty-AllOrNothing_example :
    AllOrNothing without_site.tables
      (all_made (statements codec some_hash two) (some without_site.tables))
      (seed_if_empty codec some_hash two without_site)
seed_if_empty-AllOrNothing_example =
    seed_if_empty-AllOrNothing codec some_hash two without_site refl
