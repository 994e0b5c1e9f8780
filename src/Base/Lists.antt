-- ===== src/Base/Lists.antt =====
-- Lists measured and indexed by native numbers, under the library's names.
use Prim.Native.Nat.{ℕ, zero, suc, ◌+◌}
use mathlib.Core.Path.{◌≡◌, refl}
use mathlib.Core.Logic.{◌⊎◌, inl, inr}
use mathlib.Core.Bool.{Bool, true, false, ◌&&◌, ◌||◌}
use mathlib.Core.List.{List, [], ◌∷◌, ◌++◌}
use mathlib.Core.Option.{Option, none, some}
use native.Mathlib.Nat.{zero-add}
use native.Mathlib.Omega.{arith}

module _ {ℓ} {A : Type ℓ} where
  abbrev pub length : List A → ℕ
  length [] = 0
  length (x ∷ xs) = suc (length xs)

  abbrev pub get_elem? : List A → ℕ → Option A
  get_elem? [] i = none
  get_elem? (x ∷ xs) zero = some x
  get_elem? (x ∷ xs) (suc i) = get_elem? xs i

  abbrev pub drop : ℕ → List A → List A
  drop zero xs = xs
  drop (suc n) [] = []
  drop (suc n) (x ∷ xs) = drop n xs

  -- `xs[len(xs)-1]`, or `d` on an empty list.
  abbrev pub last_or : A → List A → A
  last_or d [] = d
  last_or d (x ∷ xs) = last_or x xs

  -- The elements that pass a test, in their order.
  abbrev pub filterb : (A → Bool) → List A → List A
  filterb p [] = []
  filterb p (x ∷ xs) = elim (p x) [ true ↦ x ∷ filterb p xs | false ↦ filterb p xs ]

  abbrev pub any : (A → Bool) → List A → Bool
  any p [] = false
  any p (x ∷ xs) = p x || any p xs

  abbrev pub all : (A → Bool) → List A → Bool
  all p [] = true
  all p (x ∷ xs) = p x && all p xs

  -- Membership with its position kept.
  pub data In (a : A) : List A → Type ℓ where
    at_head : {x : A} {xs : List A} → a ≡ x → In a (x ∷ xs)
    at_tail : {x : A} {xs : List A} → In a xs → In a (x ∷ xs)

  pub get_elem?-drop : (n i : ℕ) (xs : List A) → get_elem? (drop n xs) i ≡ get_elem? xs (n + i)
  get_elem?-drop zero i xs = rw zero-add
  get_elem?-drop (suc n) i [] = refl
  get_elem?-drop (suc n) i (x ∷ xs) =
      let e : suc n + i ≡ suc (n + i) = omega arith in rw e (get_elem?-drop n i xs)

  pub append-eq-nil : (xs ys : List A) → xs ++ ys ≡ [] → (xs ≡ []) × (ys ≡ [])
  append-eq-nil [] ys h = (refl, h)
  append-eq-nil (x ∷ xs) ys h = cc

  pub append-nil-nil : (xs ys : List A) → xs ≡ [] → ys ≡ [] → xs ++ ys ≡ []
  append-nil-nil xs ys h k = rw (h, k) refl

  pub In-append_left : (a : A) (xs ys : List A) → In a xs → In a (xs ++ ys)
  In-append_left a [] ys m = elim m [ ]
  In-append_left a (x ∷ xs) ys (at_head e) = at_head e
  In-append_left a (x ∷ xs) ys (at_tail m) = at_tail (In-append_left a xs ys m)

  pub In-append_right : (a : A) (xs ys : List A) → In a ys → In a (xs ++ ys)
  In-append_right a [] ys m = m
  In-append_right a (x ∷ xs) ys m = at_tail (In-append_right a xs ys m)

  -- A predicate on every element; it computes to tuples.
  abbrev pub All {κ} : (A → Type κ) → List A → Type κ
  All P [] = Unit
  All P (x ∷ xs) = P x × All P xs

  pub All-In {κ} : (P : A → Type κ) (xs : List A) {a : A} → All P xs → In a xs → P a
  All-In P [] h m = elim m [ ]
  All-In P (x ∷ xs) h (at_head e) = rw e h.0
  All-In P (x ∷ xs) h (at_tail m) = All-In P xs h.1 m

  pub last_or-In : (d : A) (xs : List A) → (last_or d xs ≡ d) ⊎ In (last_or d xs) xs
  last_or-In d [] = inl refl
  last_or-In d (x ∷ xs) = elim (last_or-In x xs) [
    | inl e ↦ inr (at_head e)
    | inr m ↦ inr (at_tail m)
  ]

  pub All-get_elem? {κ} :
      (P : A → Type κ) (i : ℕ) (xs : List A) {a : A} → All P xs → get_elem? xs i ≡ some a → P a
  All-get_elem? P i [] h e = cc
  All-get_elem? P zero (x ∷ xs) {a} h e = let same : x ≡ a = ground arith in rw (← same) h.0
  All-get_elem? P (suc i) (x ∷ xs) h e = All-get_elem? P i xs h.1 e

  pub filterb-In :
      (a : A) (p : A → Bool) (xs : List A) → In a (filterb p xs) → In a xs × (p a ≡ true)
  filterb-In a p [] m = elim m [ ]
  filterb-In a p (x ∷ xs) m = go (p x) refl (filterb-In a p xs) m
    where
      go :
          (b : Bool)
          → p x ≡ b
          → (In a (filterb p xs) → In a xs × (p a ≡ true))
          → In a (elim b [ true ↦ x ∷ filterb p xs | false ↦ filterb p xs ])
          → In a (x ∷ xs) × (p a ≡ true)
      go true e rec (at_head h) = (at_head h, rw h e)
      go true e rec (at_tail t) = let (there, passes) = rec t in (at_tail there, passes)
      go false e rec t = let (there, passes) = rec t in (at_tail there, passes)

  -- The longest first part whose elements pass a test.
  abbrev pub take_while : (A → Bool) → List A → List A
  take_while p [] = []
  take_while p (x ∷ xs) = elim (p x) [ true ↦ x ∷ take_while p xs | false ↦ [] ]

  pub take_while-In :
      (a : A) (p : A → Bool) (xs : List A) → In a (take_while p xs) → In a xs × (p a ≡ true)
  take_while-In a p [] m = elim m [ ]
  take_while-In a p (x ∷ xs) m = go (p x) refl (take_while-In a p xs) m
    where
      go :
          (b : Bool)
          → p x ≡ b
          → (In a (take_while p xs) → In a xs × (p a ≡ true))
          → In a (elim b [ true ↦ x ∷ take_while p xs | false ↦ [] ])
          → In a (x ∷ xs) × (p a ≡ true)
      go true e rec (at_head h) = (at_head h, rw h e)
      go true e rec (at_tail t) = let (there, passes) = rec t in (at_tail there, passes)
      go false e rec t = elim t [ ]
