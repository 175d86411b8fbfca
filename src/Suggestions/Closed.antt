-- ===== src/Suggestions/Closed.antt =====
-- A scope that was rejected stays rejected until it is superseded (src/domain/task-service.ts).
use project_baracks.Prelude.{
  ◌≡◌, refl, subst, inl, inr, arith, ℕ, Text, Eq-Text, Bool, true, false, Option, none, List, [],
  ◌∷◌, ◌++◌, keep, find, any, All, Bool-cases, Option-cases, Eq-ℕ,
}
use project_baracks.Queue.Types.{update_where}
use project_baracks.Suggestions.Fingerprint.{Hashing}
use project_baracks.Suggestions.Store.{
  Suggestion, NewSuggestion, add_suggestion, approve_suggestion, is_pending_in, is_rejected_in,
  latest, fingerprint_of, new_suggestion, is_pending_with, refused_at,
}
use project_baracks.Suggestions.Runs.{
  scope_eq, SuggestionOp, add, reject, approve, apply, run, reject_cases,
}

-- A rejection of the scope stands, and nothing waits for it.
unfoldable pub IsClosed : ℕ → Text → List Suggestion → Type 0
IsClosed project_id fingerprint ss =
    (any (is_rejected_in project_id fingerprint) ss ≡ true)
    × (find (is_pending_in project_id fingerprint) ss ≡ none)

-- The operation does not ask to supersede a rejection.
abbrev SupersedesNone : SuggestionOp → Type 0
SupersedesNone (add id now input) = input.supersedes ≡ none
SupersedesNone (reject id now remark) = Unit
SupersedesNone (approve id remark) = Unit

any-append :
    {A : Type 0} (p : A → Bool) (xs ys : List A) → any p xs ≡ true → any p (xs ++ ys) ≡ true
any-append p [] ys h = absurd (ground arith)
any-append p (x ∷ xs) ys h = ground (arith, any-append p xs ys)

find-snoc_none :
    {A : Type 0} (p : A → Bool) (xs : List A) (y : A)
    → find p xs ≡ none
    → p y ≡ false
    → find p (xs ++ y ∷ []) ≡ none
find-snoc_none p [] y h k = ground arith
find-snoc_none p (x ∷ xs) y h k = ground (arith, find-snoc_none p xs y)

any-update :
    {A : Type 0} (q p : A → Bool) (f : A → A) (xs : List A)
    → ((x : A) → q x ≡ true → q (f x) ≡ true)
    → any q xs ≡ true
    → any q (update_where p f xs) ≡ true
any-update q p f [] keeps h = h
any-update q p f (x ∷ xs) keeps h = ground (arith, keeps x, any-update q p f xs keeps)

find-update_none :
    {A : Type 0} (q p : A → Bool) (f : A → A) (xs : List A)
    → ((x : A) → q (f x) ≡ false)
    → find q xs ≡ none
    → find q (update_where p f xs) ≡ none
find-update_none q p f [] never h = h
find-update_none q p f (x ∷ xs) never h = ground (arith, never x, find-update_none q p f xs never)

latest-some :
    (p : Suggestion → Bool) (ss : List Suggestion) → latest (keep p ss) ≡ none → any p ss ≡ false
unfolding latest
latest-some p [] h = refl
latest-some p (s ∷ ss) h = elim (Bool-cases (p s)) [
  | inr e ↦ ground (arith, e, latest-some p ss)
  | inl e ↦ elim (Option-cases (latest (keep p ss))) [
    | inl f ↦ absurd (ground (arith, e, f))
    | inr (t, f) ↦ absurd (ground (arith, e, f))
  ]
]

add-IsClosed :
    (h : Hashing) (id now : ℕ) (input : NewSuggestion) (project_id : ℕ) (fingerprint : Text)
    (ss : List Suggestion)
    → input.supersedes ≡ none
    → IsClosed project_id fingerprint ss
    → IsClosed project_id fingerprint (add_suggestion h id now input ss).0
unfolding add_suggestion IsClosed
add-IsClosed h id now input project_id fingerprint ss plain (stands, free) =
    let row : Suggestion = new_suggestion h id now input in
    let own : Text = fingerprint_of h input in
    elim (Option-cases (find (is_pending_in input.project_id own) ss)) [
      | inr (waiting, e) ↦ rw (e, add_suggestion) (stands, free)
      | inl e ↦ elim (Option-cases (latest (keep (is_rejected_in input.project_id own) ss))) [
        | inr (refused, f) ↦ rw (e, f, plain, add_suggestion) (stands, free)
        | inl f ↦ elim (Bool-cases (is_pending_in project_id fingerprint row)) [
          | inr other ↦
              rw (e, f, add_suggestion)
                (
                  any-append (is_rejected_in project_id fingerprint) ss (row ∷ []) stands,
                  find-snoc_none (is_pending_in project_id fingerprint) ss row free other,
                )
          | inl same ↦
              let (p_same, f_same) = scope_eq h id now input project_id fingerprint same in
              let gone : any (is_rejected_in project_id fingerprint) ss ≡ false =
                subst (λ t. any (is_rejected_in project_id t) ss ≡ false) f_same
                  (subst (λ p. any (is_rejected_in p own) ss ≡ false) p_same
                    (latest-some (is_rejected_in input.project_id own) ss f)) in
              absurd (ground (arith, gone))
        ]
      ]
    ]

refused_stays_rejected :
    (now : ℕ) (remark : Option Text) (project_id : ℕ) (fingerprint : Text) (s : Suggestion)
    → is_rejected_in project_id fingerprint s ≡ true
    → is_rejected_in project_id fingerprint (refused_at now remark s) ≡ true
unfolding is_rejected_in
refused_stays_rejected now remark project_id fingerprint s h = ground arith

refused_never_waits :
    (now : ℕ) (remark : Option Text) (project_id : ℕ) (fingerprint : Text) (s : Suggestion)
    → is_pending_in project_id fingerprint (refused_at now remark s) ≡ false
unfolding is_pending_in
refused_never_waits now remark project_id fingerprint s = ground arith

apply-IsClosed :
    (h : Hashing) (op : SuggestionOp) (project_id : ℕ) (fingerprint : Text) (ss : List Suggestion)
    → SupersedesNone op
    → IsClosed project_id fingerprint ss
    → IsClosed project_id fingerprint (apply h op ss)
unfolding apply approve_suggestion
apply-IsClosed h (add id now input) project_id fingerprint ss plain closed =
    add-IsClosed h id now input project_id fingerprint ss plain closed
apply-IsClosed h (reject id now remark) project_id fingerprint ss plain closed =
    reject_cases (IsClosed project_id fingerprint) id now remark ss closed (
      unfold IsClosed in
      (
        any-update (is_rejected_in project_id fingerprint) (is_pending_with id)
            (refused_at now remark) ss (refused_stays_rejected now remark project_id fingerprint)
            closed.0,
        find-update_none (is_pending_in project_id fingerprint) (is_pending_with id)
            (refused_at now remark) ss (refused_never_waits now remark project_id fingerprint)
            closed.1,
      ))
apply-IsClosed h (approve id remark) project_id fingerprint ss plain closed = closed

-- Where a rejection of a scope stands and nothing waits for it, this is so after any operations that
-- supersede nothing: the scope is not suggested again.
pub run-IsClosed :
    (h : Hashing) (ops : List SuggestionOp) (project_id : ℕ) (fingerprint : Text)
    (ss : List Suggestion)
    → All SupersedesNone ops
    → IsClosed project_id fingerprint ss
    → IsClosed project_id fingerprint (run h ops ss)
unfolding run
run-IsClosed h [] project_id fingerprint ss plain closed = closed
run-IsClosed h (op ∷ ops) project_id fingerprint ss plain closed =
    run-IsClosed h ops project_id fingerprint (apply h op ss) plain.1
      (apply-IsClosed h op project_id fingerprint ss plain.0 closed)
