-- ===== src/Prelude/Lists.antt =====
-- Lists measured by native numbers, Boolean filters and searches, and a predicate on all members.
use Prim.Native.Nat.{ℕ, suc, ◌+◌, ◌≤◌}
use mathlib.Core.Path.{◌≡◌, refl}
use mathlib.Core.Logic.{◌⊎◌, inl, inr}
use mathlib.Core.Bool.{Bool, true, false, ◌&&◌, ◌||◌}
use mathlib.Core.Option.{Option, none, some}
use mathlib.Core.List.{List, [], ◌∷◌, ◌++◌, map}
use native.Mathlib.Omega.{arith}
use project_baracks.Prelude.Tests.{if◌then◌else◌, Bool-cases}

module _ {ℓ} {A : Type ℓ} where
  abbrev pub length : List A → ℕ
  length [] = 0
  length (x ∷ xs) = suc (length xs)

  pub length-append : (xs ys : List A) → length (xs ++ ys) ≡ length xs + length ys
  length-append [] ys = omega arith
  length-append (x ∷ xs) ys = omega (arith, length-append xs ys)

  -- `xs.filter(p)`
  abbrev pub keep : (A → Bool) → List A → List A
  keep p [] = []
  keep p (x ∷ xs) = let rest = keep p xs in if p x then x ∷ rest else rest

  -- `xs.find(p)`
  abbrev pub find : (A → Bool) → List A → Option A
  find p [] = none
  find p (x ∷ xs) = let rest = find p xs in if p x then some x else rest

  -- `xs.some(p)`
  abbrev pub any : (A → Bool) → List A → Bool
  any p [] = false
  any p (x ∷ xs) = p x || any p xs

  -- `xs.every(p)`
  abbrev pub all : (A → Bool) → List A → Bool
  all p [] = true
  all p (x ∷ xs) = p x && all p xs

  abbrev pub All {κ} : (A → Type κ) → List A → Type κ
  All P [] = Unit
  All P (x ∷ xs) = P x × All P xs

  pub keep-append : (p : A → Bool) (xs ys : List A) → keep p (xs ++ ys) ≡ keep p xs ++ keep p ys
  keep-append p [] ys = refl
  keep-append p (x ∷ xs) ys = ground (arith, keep-append p xs ys)

  pub length-keep-le : (p : A → Bool) (xs : List A) → length (keep p xs) ≤ length xs
  length-keep-le p [] = omega arith
  length-keep-le p (x ∷ xs) = ground (arith, length-keep-le p xs)

  pub All-snoc {κ} : (P : A → Type κ) (xs : List A) (y : A) → All P xs → P y → All P (xs ++ y ∷ [])
  All-snoc P [] y every last = (last, tt)
  All-snoc P (x ∷ xs) y every last = (every.0, All-snoc P xs y every.1 last)

  -- Some member satisfies `P`.
  abbrev pub Any : (A → Type 0) → List A → Type 0
  Any P [] = ⊥
  Any P (x ∷ xs) = P x ⊎ Any P xs

  pub Any-append_left : (P : A → Type 0) (xs ys : List A) → Any P xs → Any P (xs ++ ys)
  Any-append_left P [] ys h = absurd h
  Any-append_left P (x ∷ xs) ys (inl h) = inl h
  Any-append_left P (x ∷ xs) ys (inr h) = inr (Any-append_left P xs ys h)

  pub Any-keep :
      (P : A → Type 0) (p : A → Bool) (xs : List A)
      → ((x : A) → P x → p x ≡ true)
      → Any P xs
      → Any P (keep p xs)
  Any-keep P p [] sure h = h
  Any-keep P p (x ∷ xs) sure (inl h) = rw (sure x h) (inl h)
  Any-keep P p (x ∷ xs) sure (inr h) = elim (Bool-cases (p x)) [
    | inl kept ↦ rw kept (inr (Any-keep P p xs sure h))
    | inr gone ↦ rw gone (Any-keep P p xs sure h)
  ]

pub List-cases {ℓ} :
    {A : Type ℓ} (xs : List A) → (xs ≡ []) ⊎ ((y : A) × (ys : List A) × (xs ≡ y ∷ ys))
List-cases [] = inl refl
List-cases (y ∷ ys) = inr (y, ys, refl)

module _ {A : Type 0} where
  -- `x` stands in the list.
  abbrev pub Mem : A → List A → Type 0
  Mem x [] = ⊥
  Mem x (y ∷ ys) = (x ≡ y) ⊎ Mem x ys

  pub Mem-keep : (p : A → Bool) (x : A) (xs : List A) → Mem x (keep p xs) → Mem x xs × (p x ≡ true)
  Mem-keep p x [] h = absurd h
  Mem-keep p x (y ∷ ys) h = ground (arith, Mem-keep p x ys)

  pub Mem-in_keep : (p : A → Bool) (x : A) (xs : List A) → p x ≡ true → Mem x xs → Mem x (keep p xs)
  Mem-in_keep p x [] sure h = h
  Mem-in_keep p x (y ∷ ys) sure h = ground (arith, Mem-in_keep p x ys sure)

  pub Mem-append : (x : A) (xs ys : List A) → Mem x (xs ++ ys) → Mem x xs ⊎ Mem x ys
  Mem-append x [] ys h = inr h
  Mem-append x (y ∷ xs) ys h = ground (arith, Mem-append x xs ys)

  pub Mem-append_left : (x : A) (xs ys : List A) → Mem x xs → Mem x (xs ++ ys)
  Mem-append_left x [] ys h = absurd h
  Mem-append_left x (y ∷ xs) ys h = ground (arith, Mem-append_left x xs ys)

  pub Mem-append_right : (x : A) (xs ys : List A) → Mem x ys → Mem x (xs ++ ys)
  Mem-append_right x [] ys h = h
  Mem-append_right x (y ∷ xs) ys h = inr (Mem-append_right x xs ys h)

  pub All-Mem : (P : A → Type 0) (x : A) (xs : List A) → All P xs → Mem x xs → P x
  All-Mem P x [] every h = absurd h
  All-Mem P x (y ∷ ys) every h = ground (arith, All-Mem P x ys)

  pub find-Mem : (p : A → Bool) (x : A) (xs : List A) → find p xs ≡ some x → Mem x xs × (p x ≡ true)
  find-Mem p x [] h = ground arith
  find-Mem p x (y ∷ ys) h = elim (Bool-cases (p y)) [
    | inl here ↦ ground (arith, here)
    | inr there ↦ ground (arith, there, find-Mem p x ys)
  ]

module _ {A : Type 0} {B : Type 0} where
  pub Mem-map :
      (f : A → B) (y : B) (xs : List A) → Mem y (map f xs) → (x : A) × Mem x xs × (y ≡ f x)
  Mem-map f y [] h = absurd h
  Mem-map f y (x ∷ xs) (inl h) = (x, inl refl, h)
  Mem-map f y (x ∷ xs) (inr h) = let (z, inside, same) = Mem-map f y xs h in (z, inr inside, same)
