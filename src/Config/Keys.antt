-- ===== src/Config/Keys.antt =====
-- The typed keys of the raw configuration (pkg/config/keys.go). A pop takes the key out of the
-- configuration, whether the value is of use or not.
pub mod Sets
pub mod Bounds
use spicedb_operator.Base.{
  Bool, List, Option, String, [], false, if◌then◌else◌, none, some, ℕ, ◌==◌, ◌∷◌,
}
use spicedb_operator.Base.Int.{parse_bool, parse_int, pos, ℤ}
use spicedb_operator.Base.Map.{Map, delete, insert, lookup}
use spicedb_operator.Base.Text.{cut, split}
use spicedb_operator.Config.Values.{
  RawConfig, Scalar, Value, flag, leaf, nested, null, number, object, print_scalar, print_value,
  str,
}

-- `key[string]`
pub record TextKey : Type 0 where
  pub key : String
  pub default_value : String

-- `newStringKey`
abbrev pub new_string_key : String → TextKey
new_string_key k = record { key = k; default_value = "" }

-- `key.peek`
unfoldable pub peek : TextKey → RawConfig → Value
peek k config = elim (lookup k.key config) [ none ↦ leaf (str k.default_value) | some v ↦ v ]

-- `tv, ok := v.(string)`
unfoldable pub text_or : String → Value → String
text_or default (leaf (str s)) = s
text_or default (leaf null) = default
text_or default (leaf (flag b)) = default
text_or default (leaf (number s)) = default
text_or default (leaf (nested s)) = default
text_or default (object m) = default

-- `key.pop`
unfoldable pub pop_text : TextKey → RawConfig → String × RawConfig
pop_text k config = (text_or k.default_value (peek k config), delete k.key config)

-- The errors of the keys, with what they are about.
pub data KeyError : Type 0 where
  bad_number : String → KeyError
  bad_bool : String → KeyError
  expected_bool : String → KeyError
  expected_set : String → KeyError

-- What a pop returns: the value, the error if there is one, and the configuration without the key.
pub record Popped (A : Type 0) : Type 0 where
  pub value : A
  pub error : Option KeyError
  pub rest : RawConfig

-- `intOrStringKey[int32]`; the other integer types are not used
pub record IntKey : Type 0 where
  pub key : String
  pub default_value : ℤ

-- 2 ^ 31, the end of the range of an int32
abbrev pub int32_limit : ℕ
int32_limit = 2147483648

unfoldable pub read_int : String → Option ℤ → ℤ × Option KeyError
read_int s none = (pos 0, some (bad_number s))
read_int s (some i) = (i, none)

-- `intOrStringKey.pop`
unfoldable pub pop_int : (Map Scalar → String) → IntKey → RawConfig → Popped ℤ
pop_int show_object k config =
    let (value, error) : ℤ × Option KeyError = elim (lookup k.key config) [
      | none ↦ (k.default_value, none)
      | some v ↦
          read_int (print_value show_object v) (parse_int int32_limit (print_value show_object v))
    ] in
    record { value = value; error = error; rest = delete k.key config }

-- `boolOrStringKey`
pub record BoolKey : Type 0 where
  pub key : String
  pub default_value : Bool

unfoldable pub read_bool : String → Value → Bool × Option KeyError
read_bool key (leaf (str s)) = elim (parse_bool s) [
  | none ↦ (false, some (bad_bool s))
  | some b ↦ (b, none)
]
read_bool key (leaf (flag b)) = (b, none)
read_bool key (leaf null) = (false, some (expected_bool key))
read_bool key (leaf (number s)) = (false, some (expected_bool key))
read_bool key (leaf (nested s)) = (false, some (expected_bool key))
read_bool key (object m) = (false, some (expected_bool key))

-- `boolOrStringKey.pop`
unfoldable pub pop_bool : BoolKey → RawConfig → Popped Bool
pop_bool k config =
    let (value, error) : Bool × Option KeyError = elim (lookup k.key config) [
      | none ↦ (k.default_value, none)
      | some v ↦ read_bool k.key v
    ] in
    record { value = value; error = error; rest = delete k.key config }

-- A part of a set that was passed over: of which object, which kind of metadata, and the part.
pub record BadPair : Type 0 where
  pub object_type : String
  pub metadata_type : String
  pub part : String

module _ (object_type metadata_type : String) where
  abbrev pub bad_pair : String → BadPair
  bad_pair part = record { object_type = object_type; metadata_type = metadata_type; part = part }

  -- The loop over the parts of a text, `k=v,k2=v2`, onto the entries read before.
  unfoldable pub read_pairs : Map String → List String → Map String × List BadPair
  read_pairs m [] = (m, [])
  read_pairs m (p ∷ ps) =
      let (k, v, found) = cut b'=' p in
      let (with_pair, bad_with) = read_pairs (insert k v m) ps in
      let (without, bad_without) = read_pairs m ps in
      if found then (with_pair, bad_with) else (without, bad_pair p ∷ bad_without)

  -- The loop over the entries of an object.
  unfoldable pub read_entries : Map String → Map Scalar → Map String × List BadPair
  read_entries m [] = (m, [])
  read_entries m ((k, str s) ∷ es) = read_entries (insert k s m) es
  read_entries m ((k, null) ∷ es) =
      let (read, bad) = read_entries m es in (read, bad_pair (print_scalar null) ∷ bad)
  read_entries m ((k, flag b) ∷ es) =
      let (read, bad) = read_entries m es in (read, bad_pair (print_scalar (flag b)) ∷ bad)
  read_entries m ((k, number s) ∷ es) =
      let (read, bad) = read_entries m es in (read, bad_pair (print_scalar (number s)) ∷ bad)
  read_entries m ((k, nested s) ∷ es) =
      let (read, bad) = read_entries m es in (read, bad_pair (print_scalar (nested s)) ∷ bad)

  -- The switch on the type of the value; the empty text has no parts.
  unfoldable pub read_set : String → Value → (Map String × List BadPair) × Option KeyError
  read_set key (leaf (str s)) = (if s == "" then ([], []) else read_pairs [] (split b',' s), none)
  read_set key (object m) = (read_entries [] m, none)
  read_set key (leaf null) = (([], []), some (expected_set key))
  read_set key (leaf (flag b)) = (([], []), some (expected_set key))
  read_set key (leaf (number s)) = (([], []), some (expected_set key))
  read_set key (leaf (nested s)) = (([], []), some (expected_set key))

  unfoldable pub found_set : String → Option Value → (Map String × List BadPair) × Option KeyError
  found_set key none = (([], []), none)
  found_set key (some v) = read_set key v

  -- `metadataSetKey.pop`; a nil map is an empty one here, since nothing tells them apart
  unfoldable pub pop_set : String → RawConfig → Popped (Map String × List BadPair)
  pop_set key config =
      let read = found_set key (lookup key config) in
      record { value = read.0; error = read.1; rest = delete key config }
