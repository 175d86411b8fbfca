-- ===== src/Suggestions/Runs.antt =====
-- The operations on suggestions as steps of one table (src/domain/task-service.ts), and what every
-- step keeps.
use project_baracks.Prelude.{
  ◌≡◌, ◌≤◌, Eq-Text, text_eq_iff, nat_eq_iff, inl, inr, arith, ℕ, Text, Bool, true, Option, List,
  [], ◌∷◌, length, keep, Bool-cases, Option-cases, Eq-ℕ, ◌!=◌, not,
}
use project_baracks.Queue.Types.{update_where, changes}
use project_baracks.Suggestions.Fingerprint.{Hashing}
use project_baracks.Suggestions.Store.{
  Suggestion, NewSuggestion, Result, ok, err, add_suggestion, reject_suggestion, approve_suggestion,
  is_pending_with, refused_at, get_suggestion, is_pending, is_pending_in, fingerprint_of,
  new_suggestion,
}

pub data SuggestionOp : Type 0 where
  add : (id now : ℕ) → NewSuggestion → SuggestionOp
  reject : (id now : ℕ) → Option Text → SuggestionOp
  approve : (id : ℕ) → Option Text → SuggestionOp

abbrev result_or : List Suggestion → Result (List Suggestion) → List Suggestion
result_or ss (ok after) = after
result_or ss (err e) = ss

-- An operation that throws leaves the table as it was.
unfoldable pub apply : Hashing → SuggestionOp → List Suggestion → List Suggestion
apply h (add id now input) ss = (add_suggestion h id now input ss).0
apply h (reject id now note) ss = result_or ss (reject_suggestion id now note ss)
apply h (approve id note) ss = result_or ss (approve_suggestion id note ss)

unfoldable pub run : Hashing → List SuggestionOp → List Suggestion → List Suggestion
run h [] ss = ss
run h (op ∷ ops) ss = run h ops (apply h op ss)

-- A rejection leaves the table as it was, or refuses the suggestions that wait under the id.
pub reject_cases :
    (P : List Suggestion → Type 0) (id now : ℕ) (reason : Option Text) (ss : List Suggestion)
    → P ss
    → P (update_where (is_pending_with id) (refused_at now reason) ss)
    → P (result_or ss (reject_suggestion id now reason ss))
unfolding reject_suggestion
reject_cases P id now reason ss same refused = elim (Option-cases (get_suggestion id ss)) [
  | inl e ↦ rw (e, result_or) same
  | inr (s, e) ↦ elim (Bool-cases (not (is_pending s.status))) [
    | inl decided ↦ rw (e, decided, result_or) same
    | inr waits ↦ elim (Bool-cases (changes (is_pending_with id) ss != 1)) [
      | inl other ↦ rw (e, waits, other, result_or) same
      | inr one ↦ rw (e, waits, one, result_or) refused
    ]
  ]
]

-- An update keeps no more rows of a kind than there were, where it makes none.
pub update-keep_le :
    {A : Type 0} (q p : A → Bool) (f : A → A) (xs : List A)
    → ((x : A) → q (f x) ≡ true → q x ≡ true)
    → length (keep q (update_where p f xs)) ≤ length (keep q xs)
update-keep_le q p f [] from = omega arith
update-keep_le q p f (x ∷ xs) from = ground (arith, from x, update-keep_le q p f xs from)

-- The scope of a new suggestion is the only one that gains one.
pub scope_eq :
    (h : Hashing) (id now : ℕ) (input : NewSuggestion) (project_id : ℕ) (fingerprint : Text)
    → is_pending_in project_id fingerprint (new_suggestion h id now input) ≡ true
    → (input.project_id ≡ project_id) × (fingerprint_of h input ≡ fingerprint)
unfolding is_pending_in new_suggestion
scope_eq h id now input project_id fingerprint e = (
  (nat_eq_iff input.project_id project_id).0 (ground (arith, e)),
  (text_eq_iff (fingerprint_of h input) fingerprint).0 (ground (arith, e)),
)
