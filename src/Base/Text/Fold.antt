-- ===== src/Base/Text/Fold.antt =====
-- Texts that are equal up to the case of letters (`strings.EqualFold`), told without the test.
use Prim.Native.Nat.{ℕ, ◌+◌, ◌≤◌}
use Prim.Native.Char.{code}
use Prim.Native.String.{String}
use mathlib.Core.Path.{◌≡◌, refl}
use mathlib.Core.Bool.{Bool, true, false, ◌&&◌}
use mathlib.Core.Logic.{◌⊎◌, ◌↔◌}
use native.Mathlib.Omega.{arith}
use spicedb_operator.Base.Tests.{eqb}
use spicedb_operator.Base.Text.{equal_fold, fold}

-- The code of an upper case letter of ASCII.
abbrev pub UpperCase : ℕ → Type 0
UpperCase a = (65 ≤ a) × (a ≤ 90)

-- The same character, or one letter in two cases.
abbrev pub SameLetter : ℕ → ℕ → Type 0
SameLetter a b = (a ≡ b) ⊎ ((UpperCase a × (b ≡ a + 32)) ⊎ (UpperCase b × (a ≡ b + 32)))

-- The texts have the same length and, at each place, the same character or one letter in two cases.
abbrev pub SameFold : String → String → Type 0
SameFold String.[] String.[] = Unit {0}
SameFold String.[] (String.◌∷◌ d t) = ⊥
SameFold (String.◌∷◌ c s) String.[] = ⊥
SameFold (String.◌∷◌ c s) (String.◌∷◌ d t) = SameLetter (code c) (code d) × SameFold s t

fold-SameLetter : (a b : ℕ) → eqb (fold a) (fold b) ≡ true → SameLetter a b
fold-SameLetter a b h = ground arith

SameLetter-fold : (a b : ℕ) → SameLetter a b → eqb (fold a) (fold b) ≡ true
SameLetter-fold a b h = ground arith

pub equal_fold_iff : (s t : String) → (equal_fold s t ≡ true) ↔ SameFold s t
unfolding equal_fold
equal_fold_iff String.[] String.[] = (λ _. tt, λ _. refl)
equal_fold_iff String.[] (String.◌∷◌ d t) = (λ h. cc, absurd)
equal_fold_iff (String.◌∷◌ c s) String.[] = (λ h. cc, absurd)
equal_fold_iff (String.◌∷◌ c s) (String.◌∷◌ d t) = (
  λ h.
      let (letter, rest) = both (eqb (fold (code c)) (fold (code d))) (equal_fold s t) h in
      (fold-SameLetter (code c) (code d) letter, (equal_fold_iff s t).0 rest),
  λ (letter, rest). rw (SameLetter-fold (code c) (code d) letter) ((equal_fold_iff s t).1 rest),
)
  where
    both : (a b : Bool) → (a && b) ≡ true → (a ≡ true) × (b ≡ true)
    both true b h = (refl, h)
    both false b h = cc
