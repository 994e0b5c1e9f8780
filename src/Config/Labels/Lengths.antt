-- ===== src/Config/Labels/Lengths.antt =====
-- How long the labels can be (pkg/config/config.go).
use spicedb_operator.Base.{
  Bool, Option, String, arith, false, if◌then◌else◌, inl, inr, ltb, none, refl, some, suc, true,
  zero, ℕ, ◌==◌, ◌≡◌, ◌≤◌, ◌⊎◌,
}
use spicedb_operator.Api.Version.{Version}
use spicedb_operator.Config.Labels.{prefix, short_label, size, version_label}

size-prefix : (n : ℕ) (s : String) → size (prefix n s) ≤ n
unfolding size prefix
size-prefix zero s = omega arith
size-prefix (suc n) String.[] = omega arith
size-prefix (suc n) (String.◌∷◌ c s) = omega (arith, size-prefix n s)

-- The version's label has at most 63 characters, and is empty or one that Kubernetes accepts,
-- whatever the cleaning of the name makes of it.
pub version_label-fits :
    (clean : String → String) (is_valid_label_value : String → Bool) (v : Option Version)
    → (size (version_label clean is_valid_label_value v) ≤ 63)
      × ((version_label clean is_valid_label_value v ≡ "")
          ⊎ (is_valid_label_value (version_label clean is_valid_label_value v) ≡ true))
unfolding version_label short_label size
version_label-fits clean is_valid none = (omega arith, inl refl)
version_label-fits clean is_valid (some v) = go (v.name == "") (clean v.name)
  where
    short : String → String
    short value = if ltb 63 (size value) then prefix 63 value else value

    short_fits : (value : String) → size (short value) ≤ 63
    short_fits value = ground (arith, size-prefix 63 value)

    checked_label :
        (value : String) (b : Bool)
        → is_valid value ≡ b
        → size value ≤ 63
        → (size (if b then value else "") ≤ 63)
          × (((if b then value else "") ≡ "") ⊎ (is_valid (if b then value else "") ≡ true))
    checked_label value true e h = (h, inr e)
    checked_label value false e h = (omega arith, inl refl)

    go :
        (b : Bool) (value : String)
        → (size (if b then "" else if is_valid (short value) then short value else "") ≤ 63)
          × (((if b then "" else if is_valid (short value) then short value else "") ≡ "")
              ⊎ (is_valid (if b then "" else if is_valid (short value) then short value else "")
                  ≡ true))
    go true value = (omega arith, inl refl)
    go false value = checked_label (short value) (is_valid (short value)) refl (short_fits value)
