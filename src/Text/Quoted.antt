-- ===== src/Text/Quoted.antt =====
-- What %q of the package fmt makes of a text of printable characters.
use Prim.Native.String
use Prim.Native.String.{[], ◌∷◌}
use Prim.Native.Char.{code}
use nexlog_server.Base.{String, ◌||◌, nat_eq, if◌then◌else◌}

unfoldable pub escaped : String → String
escaped [] = []
escaped (c ∷ s) =
    let rest = escaped s in
    if nat_eq (code c) b'"' || nat_eq (code c) 92 then String.◌++◌ "\\" (c ∷ rest) else c ∷ rest

abbrev pub quoted : String → String
quoted s = String.◌++◌ "\"" (String.◌++◌ (escaped s) "\"")
