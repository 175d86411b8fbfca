-- ===== src/Prelude/Search.antt =====
-- Filters and searches against membership.
use Prim.Native.Nat.{◌<◌}
use mathlib.Core.Path.{◌≡◌, refl}
use mathlib.Core.Logic.{inl, inr}
use mathlib.Core.Bool.{Bool, true, false}
use mathlib.Core.Option.{none}
use mathlib.Core.List.{List, [], ◌∷◌}
use native.Mathlib.Omega.{arith}
use project_baracks.Prelude.Tests.{ltb, Bool-cases}
use project_baracks.Prelude.Lists.{length, keep, find, any, Mem}

-- A filter that keeps something keeps a member that passes the test.
pub keep-nonempty :
    {A : Type 0} (p : A → Bool) (xs : List A)
    → 0 < length (keep p xs)
    → (x : A) × Mem x xs × (p x ≡ true)
keep-nonempty p [] h = absurd (omega arith)
keep-nonempty p (x ∷ xs) h = elim (Bool-cases (p x)) [
  | inl e ↦ (x, inl refl, e)
  | inr e ↦
      let shorter : 0 < length (keep p xs) = ground arith in
      let (y, inside, holds) = keep-nonempty p xs shorter in (y, inr inside, holds)
]

pub keep-empty :
    {A : Type 0} (p : A → Bool) (x : A) (xs : List A)
    → ltb 0 (length (keep p xs)) ≡ false
    → Mem x xs
    → p x ≡ false
keep-empty p x [] h inside = absurd inside
keep-empty p x (y ∷ ys) h inside = ground (arith, keep-empty p x ys)

pub empty-keep :
    {A : Type 0} (p : A → Bool) (xs : List A)
    → ((x : A) → Mem x xs → p x ≡ false)
    → ltb 0 (length (keep p xs)) ≡ false
empty-keep p [] never = refl
empty-keep p (x ∷ xs) never =
    ground (arith, never x (inl refl), empty-keep p xs (λ y h. never y (inr h)))

pub any-Mem :
    {A : Type 0} (p : A → Bool) (xs : List A) → any p xs ≡ true → (x : A) × Mem x xs × (p x ≡ true)
any-Mem p [] h = absurd (ground arith)
any-Mem p (x ∷ xs) h = elim (Bool-cases (p x)) [
  | inl e ↦ (x, inl refl, e)
  | inr e ↦ let (y, inside, holds) = any-Mem p xs (ground arith) in (y, inr inside, holds)
]

pub Mem-any :
    {A : Type 0} (p : A → Bool) (x : A) (xs : List A) → Mem x xs → p x ≡ true → any p xs ≡ true
Mem-any p x [] h holds = absurd h
Mem-any p x (y ∷ ys) h holds = ground (arith, Mem-any p x ys)

-- What is not found is not kept.
pub find-none-keep :
    {A : Type 0} (p : A → Bool) (xs : List A) → find p xs ≡ none → length (keep p xs) ≡ 0
find-none-keep p [] h = refl
find-none-keep p (x ∷ xs) h = ground (arith, find-none-keep p xs)
