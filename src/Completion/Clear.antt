-- ===== src/Completion/Clear.antt =====
-- What it takes for a list of failures to be empty (src/domain/completion.ts).
use project_baracks.Prelude.{◌≡◌, ◌↔◌, refl, arith, Bool, true, false, List, [], ◌∷◌, ◌++◌}
use project_baracks.Completion.Proof.{Failure, is_clear, when}

pub clear-append :
    (xs ys : List Failure)
    → is_clear (xs ++ ys) ≡ true
    → (is_clear xs ≡ true) × (is_clear ys ≡ true)
clear-append [] ys h = (refl, h)
clear-append (x ∷ xs) ys h = absurd (ground arith)

pub clear-of_parts :
    (xs ys : List Failure) → is_clear xs ≡ true → is_clear ys ≡ true → is_clear (xs ++ ys) ≡ true
clear-of_parts [] ys h k = k
clear-of_parts (x ∷ xs) ys h k = absurd (ground arith)

pub clear-when : (b : Bool) (f : Failure) → (is_clear (when b f) ≡ true) ↔ (b ≡ false)
clear-when true f = ground arith
clear-when false f = ground arith
