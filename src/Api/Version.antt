-- ===== src/Api/Version.antt =====
-- `SpiceDBVersion` and its attributes (pkg/apis/authzed/v1alpha1/types.go).
use spicedb_operator.Base.{Bool, List, Option, String, [], false, none, some, true, ◌&&◌, ◌==◌, ◌∷◌}

-- The attributes are texts, which the API server stores as they are.
abbrev pub Attribute : Type 0
Attribute = String

abbrev pub attribute_next : Attribute
attribute_next = "next"

abbrev pub attribute_migration : Attribute
attribute_migration = "migration"

abbrev pub attribute_latest : Attribute
attribute_latest = "latest"

abbrev pub attribute_not_in_channel : Attribute
attribute_not_in_channel = "notInDesiredChannel"

-- `SpiceDBVersion`
pub record Version : Type 0 where
  pub name : String
  pub channel : String
  pub attributes : List Attribute
  pub description : String

-- `SpiceDBVersion{}`
abbrev pub empty_version : Version
empty_version = record { name = ""; channel = ""; attributes = []; description = "" }

-- `slices.Equal` on texts
unfoldable pub equal_texts : List String → List String → Bool
equal_texts [] [] = true
equal_texts [] (b ∷ bs) = false
equal_texts (a ∷ as') [] = false
equal_texts (a ∷ as') (b ∷ bs) = a == b && equal_texts as' bs

-- `(*SpiceDBVersion).Equals`; two pointers to one value count as equal, as two values with the
-- same fields do.
unfoldable pub version_equals : Option Version → Option Version → Bool
unfolding equal_texts
version_equals none none = true
version_equals none (some w) = false
version_equals (some v) none = false
version_equals (some v) (some w) =
    v.name == w.name && v.channel == w.channel && equal_texts v.attributes w.attributes
