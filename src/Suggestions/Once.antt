-- ===== src/Suggestions/Once.antt =====
-- One suggestion at most waits for each scope of a project (src/domain/task-service.ts).
use project_baracks.Prelude.{
  find-none-keep, ◌≡◌, ◌≤◌, ◌+◌, sym, subst, inl, inr, arith, ℕ, Text, Eq-Text, Bool, true, Option,
  none, some, option_eq, List, [], ◌∷◌, ◌++◌, length, length-append, keep, keep-append, find,
  Bool-cases, Option-cases, Eq-ℕ, ◌==◌,
}
use project_baracks.Queue.Types.{update_where}
use project_baracks.Suggestions.Fingerprint.{Hashing}
use project_baracks.Suggestions.Store.{
  Suggestion, NewSuggestion, add_suggestion, is_pending_in, is_rejected_in, latest, fingerprint_of,
  new_suggestion, superseded, is_pending_with, refused_at, approve_suggestion,
}
use project_baracks.Suggestions.Runs.{
  SuggestionOp, scope_eq, add, reject, approve, apply, run, reject_cases, update-keep_le,
}

-- Every scope of every project has one suggestion at most that waits.
unfoldable IsSingle : List Suggestion → Type 0
IsSingle ss =
    (project_id : ℕ) (fingerprint : Text)
    → length (keep (is_pending_in project_id fingerprint) ss) ≤ 1

insert-IsSingle :
    (h : Hashing) (id now : ℕ) (input : NewSuggestion) (ss : List Suggestion)
    → IsSingle ss
    → find (is_pending_in input.project_id (fingerprint_of h input)) ss ≡ none
    → IsSingle (ss ++ new_suggestion h id now input ∷ [])
unfolding IsSingle
insert-IsSingle h id now input ss single free project_id fingerprint =
    let row : Suggestion = new_suggestion h id now input in
    let q : Suggestion → Bool = is_pending_in project_id fingerprint in
    let sizes : length (keep q (ss ++ row ∷ [])) ≡ length (keep q ss) + length (keep q (row ∷ [])) =
      subst (λ l. length l ≡ length (keep q ss) + length (keep q (row ∷ [])))
        (sym (keep-append q ss (row ∷ []))) (length-append (keep q ss) (keep q (row ∷ []))) in
    elim (Bool-cases (q row)) [
      | inr other ↦ ground (arith, other, sizes, single project_id fingerprint)
      | inl own ↦
          let (p_same, f_same) = scope_eq h id now input project_id fingerprint own in
          let empty : length (keep q ss) ≡ 0 =
            subst (λ f. length (keep (is_pending_in project_id f) ss) ≡ 0) f_same
              (subst (λ p. length (keep (is_pending_in p (fingerprint_of h input)) ss) ≡ 0) p_same
                (find-none-keep (is_pending_in input.project_id (fingerprint_of h input)) ss
                  free)) in
          ground (arith, own, sizes, empty)
    ]

update-IsSingle :
    (p : Suggestion → Bool) (f : Suggestion → Suggestion) (ss : List Suggestion)
    → ((project_id : ℕ) (fingerprint : Text) (s : Suggestion)
        → is_pending_in project_id fingerprint (f s) ≡ true
        → is_pending_in project_id fingerprint s ≡ true)
    → IsSingle ss
    → IsSingle (update_where p f ss)
unfolding IsSingle
update-IsSingle p f ss from single project_id fingerprint =
    let q : Suggestion → Bool = is_pending_in project_id fingerprint in
    omega
      (arith, update-keep_le q p f ss (from project_id fingerprint), single project_id fingerprint)

add-IsSingle :
    (h : Hashing) (id now : ℕ) (input : NewSuggestion) (ss : List Suggestion)
    → IsSingle ss
    → IsSingle (add_suggestion h id now input ss).0
unfolding add_suggestion is_pending_in
add-IsSingle h id now input ss single =
    let fingerprint : Text = fingerprint_of h input in
    let rows : List Suggestion = ss ++ new_suggestion h id now input ∷ [] in
    elim (Option-cases (find (is_pending_in input.project_id fingerprint) ss)) [
      | inr (waiting, e) ↦ rw (e, add_suggestion) single
      | inl free ↦
          let inserted : IsSingle rows = insert-IsSingle h id now input ss single free in
          elim (Option-cases (latest (keep (is_rejected_in input.project_id fingerprint) ss))) [
            | inl e ↦ rw (free, e, add_suggestion) inserted
            | inr (refused, e) ↦ elim (Bool-cases (option_eq input.supersedes (some refused.id))) [
              | inr kept ↦ rw (free, e, kept, add_suggestion) single
              | inl its ↦
                  rw (free, e, its, add_suggestion)
                    (update-IsSingle (λ s. s.id == refused.id) (superseded id) rows (λ p f s k. k)
                      inserted)
            ]
          ]
    ]

refused_is_pending :
    (now : ℕ) (remark : Option Text) (project_id : ℕ) (fingerprint : Text) (s : Suggestion)
    → is_pending_in project_id fingerprint (refused_at now remark s) ≡ true
    → is_pending_in project_id fingerprint s ≡ true
unfolding is_pending_in
refused_is_pending now remark project_id fingerprint s h = absurd (ground arith)

apply-IsSingle :
    (h : Hashing) (op : SuggestionOp) (ss : List Suggestion)
    → IsSingle ss
    → IsSingle (apply h op ss)
unfolding apply approve_suggestion
apply-IsSingle h (add id now input) ss single = add-IsSingle h id now input ss single
apply-IsSingle h (reject id now remark) ss single = reject_cases IsSingle id now remark ss single (
    update-IsSingle (is_pending_with id) (refused_at now remark) ss (refused_is_pending now remark)
      single)
apply-IsSingle h (approve id remark) ss single = single

run-IsSingle :
    (h : Hashing) (ops : List SuggestionOp) (ss : List Suggestion)
    → IsSingle ss
    → IsSingle (run h ops ss)
unfolding run
run-IsSingle h [] ss single = single
run-IsSingle h (op ∷ ops) ss single =
    run-IsSingle h ops (apply h op ss) (apply-IsSingle h op ss single)

-- From an empty table, whatever is added, rejected and approved: one suggestion at most waits for
-- each scope of each project.
pub run-pending_once :
    (h : Hashing) (ops : List SuggestionOp) (project_id : ℕ) (fingerprint : Text)
    → length (keep (is_pending_in project_id fingerprint) (run h ops [])) ≤ 1
unfolding IsSingle
run-pending_once h ops project_id fingerprint =
    run-IsSingle h ops [] (λ p f. omega arith) project_id fingerprint
