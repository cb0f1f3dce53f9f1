-- ===== src/Text/Tests.antt =====
-- Runs of the text functions.
use mathlib.Core.List.{[], ◌∷◌}
use nexlog_server.Base.{◌≡◌, refl, true, false, none, some}
use nexlog_server.Int.{pos, negsuc}
use nexlog_server.Text.{
  strip_prefix, trim_prefix, split, trim_space, split_host, has_suffix, trim_suffix, contains, itoa,
  ext, clean_path, atoi,
}

split_host_runs :
    (split_host "10.0.0.1:443" ≡ "10.0.0.1")
    × (split_host "[::1]:80" ≡ "::1")
    × (split_host "::1" ≡ "")
    × (split_host "[::1]" ≡ "")
    × (split_host "localhost" ≡ "")
unfolding split_host
split_host_runs = (refl, refl, refl, refl, refl)

trim_runs : (trim_space " \ta b \n" ≡ "a b") × (trim_space "  " ≡ "")
unfolding trim_space
trim_runs = (refl, refl)

split_runs : split b',' "a,,b" ≡ "a" ∷ "" ∷ "b" ∷ []
unfolding split
split_runs = refl

affix_runs :
    (trim_prefix "Bearer x" "Bearer " ≡ "x")
    × (trim_suffix "a.up.sql" ".up.sql" ≡ "a")
    × (has_suffix "a.up.sql" ".sql" ≡ true)
    × (contains "gzip, br" "gzip" ≡ true)
    × (contains "deflate" "gzip" ≡ false)
unfolding strip_prefix trim_suffix has_suffix contains
affix_runs = (refl, refl, refl, refl, refl)

itoa_runs : (itoa 0 ≡ "0") × (itoa 1980 ≡ "1980")
unfolding itoa
itoa_runs = (refl, refl)

ext_runs : (ext "a.tar.gz" ≡ ".gz") × (ext "a.d/b" ≡ "") × (ext "photo" ≡ "")
unfolding ext
ext_runs = (refl, refl, refl)

clean_path_runs :
    (clean_path "/a/../../etc//./x/" ≡ "/etc/x/")
    × (clean_path "" ≡ "/")
    × (clean_path "/api/site" ≡ "/api/site")
    × (clean_path "/." ≡ "/")
    × (clean_path "/a/.." ≡ "/")
unfolding clean_path
clean_path_runs = (refl, refl, refl, refl, refl)

atoi_runs :
    (atoi "120" ≡ some (pos 120))
    × (atoi "-3" ≡ some (negsuc 2))
    × (atoi "+7" ≡ some (pos 7))
    × (atoi "0001" ≡ some (pos 1))
    × (atoi "9223372036854775808" ≡ none)
    × (atoi "-9223372036854775808" ≡ some (negsuc 9223372036854775807))
    × (atoi "1_0" ≡ none)
    × (atoi "" ≡ none)
    × (atoi "-" ≡ none)
unfolding atoi
atoi_runs = (refl, refl, refl, refl, refl, refl, refl, refl, refl)
