-- ===== src/Json/Maps.antt =====
-- Fields as Go's maps: each key is there once. What the JSON codec keeps of a map.
use nexlog_server.Base.{String, ◌≡◌, refl, Option, none, some, eq_iff, arith, if◌then◌else◌, ◌==◌}
use nexlog_server.Json.{Value, text, Fields, end, field, field_at, set_field, as_object, Codec}
use nexlog_server.Json

abbrev pub IsMap : Fields → Type 0
IsMap end = Unit
IsMap (field k v fs) = (field_at k fs ≡ none) × IsMap fs

abbrev pub IsMapIfAny : Option Fields → Type 0
IsMapIfAny none = Unit
IsMapIfAny (some fs) = IsMap fs

-- Each object among the values is a map.
abbrev pub HasMaps : Fields → Type 0
HasMaps end = Unit
HasMaps (field k v fs) = IsMapIfAny (as_object v) × HasMaps fs

-- The second is the first as far as texts and missing keys go; of other values nothing is said.
abbrev pub SameText : Option Value → Option Value → Type 0
SameText none x = x ≡ none
SameText (some (text s)) x = x ≡ some (text s)
SameText (some v) x = Unit

-- What encoding/json and the type JSONB keep of a map that the latter takes.
pub record IsCodec (codec : Codec) : Type 0 where
  pub kept :
      (fs : Fields) (s : String)
      → IsMap fs
      → codec.jsonb (codec.marshal (some fs)) ≡ some s
      → (gs : Fields) × (codec.unmarshal s ≡ some gs)
        × ((k : String) → SameText (field_at k fs) (field_at k gs))

pub SameText-refl : (x : Option Value) → SameText x x
SameText-refl none = refl
SameText-refl (some Json.null) = tt
SameText-refl (some (Json.boolean b)) = tt
SameText-refl (some (Json.number n)) = tt
SameText-refl (some (text s)) = refl
SameText-refl (some (Json.array l)) = tt
SameText-refl (some (Json.object fs)) = tt

pub field_at-set_field :
    (k j : String) (v : Value) (fs : Fields)
    → field_at k (set_field j v fs) ≡ (if j == k then some v else field_at k fs)
unfolding field_at set_field
field_at-set_field k j v end = refl
field_at-set_field k j v (field i u fs) =
    ground (arith, eq_iff i j, eq_iff i k, eq_iff j k, field_at-set_field k j v fs)
