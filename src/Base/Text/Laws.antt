-- ===== src/Base/Text/Laws.antt =====
-- What cutting and splitting a text make of its parts.
use Prim.Native.Nat.{ℕ}
use Prim.Native.Char.{Char, code}
use Prim.Native.String.{String}
use mathlib.Core.Path.{◌≡◌, refl}
use mathlib.Core.Bool.{true, false}
use mathlib.Core.List.{[], ◌∷◌}
use spicedb_operator.Base.Tests.{eqb}
use spicedb_operator.Base.Text.{cut, split, joined}

-- The text has no character with the code.
abbrev pub Lacks : ℕ → String → Type 0
Lacks sep String.[] = Unit
Lacks sep (String.◌∷◌ c s) = (eqb (code c) sep ≡ false) × Lacks sep s

-- A separator ends the first part.
pub split-joined :
    (sep : ℕ) (d : Char) (s t : String)
    → eqb (code d) sep ≡ true
    → Lacks sep s
    → split sep (joined s (String.◌∷◌ d t)) ≡ s ∷ split sep t
unfolding split
split-joined sep d String.[] t here lacks = rw here
split-joined sep d (String.◌∷◌ c s) t here (other, lacks) =
    rw (other, split-joined sep d s t here lacks)

pub split_whole : (sep : ℕ) (s : String) → Lacks sep s → split sep s ≡ s ∷ []
unfolding split
split_whole sep String.[] lacks = refl
split_whole sep (String.◌∷◌ c s) (other, lacks) = rw (other, split_whole sep s lacks)

pub cut-joined :
    (sep : ℕ) (d : Char) (s t : String)
    → eqb (code d) sep ≡ true
    → Lacks sep s
    → cut sep (joined s (String.◌∷◌ d t)) ≡ (s, t, true)
unfolding cut
cut-joined sep d String.[] t here lacks = rw here
cut-joined sep d (String.◌∷◌ c s) t here (other, lacks) =
    rw (other, cut-joined sep d s t here lacks)

pub Lacks-joined : (sep : ℕ) (s t : String) → Lacks sep s → Lacks sep t → Lacks sep (joined s t)
Lacks-joined sep String.[] t h k = k
Lacks-joined sep (String.◌∷◌ c s) t (other, h) k = (other, Lacks-joined sep s t h k)

pub cut_whole : (sep : ℕ) (s : String) → Lacks sep s → cut sep s ≡ (s, "", false)
unfolding cut
cut_whole sep String.[] lacks = refl
cut_whole sep (String.◌∷◌ c s) (other, lacks) = rw (other, cut_whole sep s lacks)

-- Nothing is added.
pub joined_empty : (s : String) → joined s "" ≡ s
joined_empty String.[] = refl
joined_empty (String.◌∷◌ c s) = rw (joined_empty s) refl
