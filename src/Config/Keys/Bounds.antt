-- ===== src/Config/Keys/Bounds.antt =====
-- The range of a numeric key, and what a pop leaves (pkg/config/keys.go).
use spicedb_operator.Base.{Option, String, arith, inl, inr, none, refl, some, ◌≡◌, ◌⊎◌}
use spicedb_operator.Base.Int.{Fits, parse_int, parse_int-Fits, pos, ℤ}
use spicedb_operator.Base.Map.{Map, lookup}
use spicedb_operator.Config.Keys.{IntKey, KeyError, int32_limit, pop_int, read_int}
use spicedb_operator.Config.Values.{RawConfig, Scalar, Value, print_value}

read_int-Fits :
    (s : String) (o : Option ℤ)
    → ((i : ℤ) → o ≡ some i → Fits int32_limit i)
    → Fits int32_limit (read_int s o).0
unfolding read_int
read_int-Fits s none h = omega arith
read_int-Fits s (some i) h = h i refl

-- Whatever the configuration holds under the key, the number that is popped fits an int32 if the
-- default does; where there is an error, it is 0.
pub pop_int-Fits :
    (show_object : Map Scalar → String) (k : IntKey) (config : RawConfig)
    → Fits int32_limit k.default_value
    → Fits int32_limit (pop_int show_object k config).value
      × (((pop_int show_object k config).error ≡ none)
          ⊎ ((pop_int show_object k config).value ≡ pos 0))
unfolding pop_int read_int
pop_int-Fits show_object k config h = go (lookup k.key config)
  where
    read : Value → ℤ × Option KeyError
    read v =
        read_int (print_value show_object v) (parse_int int32_limit (print_value show_object v))

    outcome : (s : String) (o : Option ℤ) → (((read_int s o).1 ≡ none) ⊎ ((read_int s o).0 ≡ pos 0))
    outcome s none = inr refl
    outcome s (some i) = inl refl

    go :
        (o : Option Value)
        → Fits int32_limit
            (elim o as (λ _. ℤ × Option KeyError) [
              | none ↦ (k.default_value, none)
              | some v ↦ read v
            ]).0
          × (((elim o as (λ _. ℤ × Option KeyError) [
            | none ↦ (k.default_value, none)
            | some v ↦ read v
          ]).1
                ≡ none)
              ⊎ ((elim o as (λ _. ℤ × Option KeyError) [
                | none ↦ (k.default_value, none)
                | some v ↦ read v
              ]).0
                  ≡ pos 0))
    go none = (h, inl refl)
    go (some v) =
        let s = print_value show_object v in
        (
          read_int-Fits s (parse_int int32_limit s)
              (λ i e. parse_int-Fits int32_limit s (omega arith) e),
          outcome s (parse_int int32_limit s),
        )
