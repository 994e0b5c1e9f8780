-- ===== src/Base/Int.antt =====
-- Signed numbers, and the texts that Go's package strconv reads as numbers and as Booleans.
use Prim.Native.Nat.{ℕ, zero, suc, ◌+◌, ◌-◌, ◌*◌, ◌<◌}
use Prim.Native.Char.{code}
use Prim.Native.String.{String}
use mathlib.Core.Path.{◌≡◌}
use mathlib.Core.Bool.{Bool, true, false, ◌&&◌, ◌||◌}
use mathlib.Core.Option.{Option, none, some}
use native.Mathlib.Omega.{arith}
use text.Mathlib.Text.{◌==◌}
use spicedb_operator.Base.Tests.{ltb, leb, eqb, if◌then◌else◌}

-- `negsuc n` is -(n + 1).
pub data ℤ : Type 0 where
  pos : ℕ → ℤ
  negsuc : ℕ → ℤ

-- `1 < i`
abbrev pub exceeds_one : ℤ → Bool
exceeds_one (pos n) = ltb 1 n
exceeds_one (negsuc n) = false

-- The digits of a number, read onto `n`. The code tests the range while it reads, and this does so
-- at the end: a number that is too large is refused either way.
unfoldable pub scan_digits : ℕ → String → Option ℕ
scan_digits n String.[] = some n
scan_digits n (String.◌∷◌ c s) =
    let rest = scan_digits (n * 10 + (code c - b'0')) s in
    if leb b'0' (code c) && leb (code c) b'9' then rest else none

abbrev pub neg : ℕ → ℤ
neg zero = pos 0
neg (suc n) = negsuc n

-- The range: `limit` is 2 ^ (bits - 1).
unfoldable pub in_range : ℕ → Bool → Option ℕ → Option ℤ
in_range limit negative none = none
in_range limit false (some n) = if ltb n limit then some (pos n) else none
in_range limit true (some n) = if leb n limit then some (neg n) else none

-- One digit at least.
unfoldable pub read_digits : String → Option ℕ
read_digits String.[] = none
read_digits (String.◌∷◌ c s) = scan_digits 0 (String.◌∷◌ c s)

-- `strconv.ParseInt(s, 10, bits)`, none for an error
unfoldable pub parse_int : ℕ → String → Option ℤ
parse_int limit String.[] = none
parse_int limit (String.◌∷◌ c s) =
    if eqb (code c) b'-'
    then in_range limit true (read_digits s)
    else if eqb (code c) b'+'
    then in_range limit false (read_digits s)
    else in_range limit false (read_digits (String.◌∷◌ c s))

-- `strconv.ParseBool`, none for an error
unfoldable pub parse_bool : String → Option Bool
parse_bool s =
    if s == "1" || s == "t" || s == "T" || s == "TRUE" || s == "true" || s == "True"
    then some true
    else if s == "0" || s == "f" || s == "F" || s == "FALSE" || s == "false" || s == "False"
    then some false
    else none

-- The numbers of an intN, with `limit` as above.
abbrev pub Fits : ℕ → ℤ → Type 0
Fits limit (pos n) = n < limit
Fits limit (negsuc n) = n < limit

in_range-Fits :
    (limit : ℕ) (negative : Bool) (o : Option ℕ) {i : ℤ}
    → 0 < limit
    → in_range limit negative o ≡ some i
    → Fits limit i
unfolding in_range
in_range-Fits limit negative none h e = cc
in_range-Fits limit false (some n) h e = ground arith
in_range-Fits limit true (some zero) h e = ground arith
in_range-Fits limit true (some (suc n)) h e = ground arith

-- Every number that is read fits.
pub parse_int-Fits :
    (limit : ℕ) (s : String) {i : ℤ} → 0 < limit → parse_int limit s ≡ some i → Fits limit i
unfolding parse_int
parse_int-Fits limit String.[] h e = cc
parse_int-Fits limit (String.◌∷◌ c s) {i} h e = go (eqb (code c) b'-') (eqb (code c) b'+') e
  where
    go :
        (a b : Bool)
        → (if a
            then in_range limit true (read_digits s)
            else if b
            then in_range limit false (read_digits s)
            else in_range limit false (read_digits (String.◌∷◌ c s)))
          ≡ some i
        → Fits limit i
    go true b q = in_range-Fits limit true (read_digits s) h q
    go false true q = in_range-Fits limit false (read_digits s) h q
    go false false q = in_range-Fits limit false (read_digits (String.◌∷◌ c s)) h q
