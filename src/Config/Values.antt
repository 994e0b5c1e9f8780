-- ===== src/Config/Values.antt =====
-- The raw configuration (`RawConfig` in pkg/config/config.go): what `json.Unmarshal` makes of
-- `spec.config`. A number is kept as `fmt.Sprint` prints it. The code looks into an object of the
-- first level only, so that a list, and an object below the first level, is kept as it is printed.
use spicedb_operator.Base.{Bool, String, [], false, none, some, true, ◌∷◌}
use spicedb_operator.Base.Map.{Map, delete, lookup}

pub data Scalar : Type 0 where
  null : Scalar
  flag : Bool → Scalar
  number : String → Scalar
  str : String → Scalar
  nested : String → Scalar

pub data Value : Type 0 where
  leaf : Scalar → Value
  object : Map Scalar → Value

-- `RawConfig`
abbrev pub RawConfig : Type 0
RawConfig = Map Value

-- `RawConfig(pdbMap)`
unfoldable pub as_raw : Map Scalar → RawConfig
as_raw [] = []
as_raw ((k, v) ∷ m) = (k, leaf v) ∷ as_raw m

-- `strconv.FormatBool`
unfoldable pub format_bool : Bool → String
format_bool true = "true"
format_bool false = "false"

-- `fmt.Sprint`, which prints an object by `show_object`
unfoldable pub print_scalar : Scalar → String
print_scalar null = "<nil>"
print_scalar (flag b) = format_bool b
print_scalar (number s) = s
print_scalar (str s) = s
print_scalar (nested s) = s

unfoldable pub print_value : (Map Scalar → String) → Value → String
print_value show_object (leaf s) = print_scalar s
print_value show_object (object m) = show_object m

-- `RawConfig.Pop`: a missing key reads as the empty text
unfoldable pub pop_any : (Map Scalar → String) → String → RawConfig → String × RawConfig
pop_any show_object key config = elim (lookup key config) [
  | none ↦ ("", config)
  | some v ↦ (print_value show_object v, delete key config)
]
