-- ===== src/Tests/Suggestions.antt =====
-- Suggestions (src/domain/task-service.ts) at concrete inputs.
use project_baracks.Prelude.{◌≤◌, length, keep, ◌≡◌, Eq-ℕ, refl, text, none, some, List, [], ◌∷◌}
use project_baracks.Suggestions.Fingerprint.{Hashing, normalized, squeeze, scope_fingerprint}
use project_baracks.Suggestions.Store.{
  fingerprint_of, NewSuggestion, Suggestion, is_pending_in, is_rejected_in, rejected,
}
use project_baracks.Suggestions.Runs.{SuggestionOp, add, reject, approve, run}
use project_baracks.Suggestions.Once.{run-pending_once}
use project_baracks.Suggestions.Closed.{IsClosed, run-IsClosed}
use project_baracks.Prelude.{trim, drop_end}

-- Case is left as it is, and the digest is the text.
abbrev hashing : Hashing
hashing = record { lower = λ t. t; digest = λ t. t }

one_space : normalized (λ t. t) (text "add, the  cache!") (text " ") ≡ text "add the cache"
unfolding normalized squeeze trim drop_end
one_space = refl

abbrev refused : Suggestion
refused = record {
  id = 1;
  project_id = 9;
  title = text "cache";
  description = [];
  scope_fingerprint = text "cache";
  status = rejected;
  decided_at = some 20;
  decision_note = none;
  superseded_by_id = none;
  created_at = 10;
}

abbrev again : NewSuggestion
again = record { project_id = 9; title = text "cache!"; description = none; supersedes = none }

-- It is the scope that was rejected.
same_scope : fingerprint_of hashing again ≡ text "cache"
unfolding fingerprint_of scope_fingerprint normalized squeeze trim drop_end
same_scope = refl

abbrev ops : List SuggestionOp
ops = add 2 30 again ∷ approve 1 none ∷ reject 2 40 none ∷ []

closed : IsClosed 9 (text "cache") (refused ∷ [])
unfolding IsClosed is_rejected_in is_pending_in
closed = (refl, refl)

run-IsClosed_example : IsClosed 9 (text "cache") (run hashing ops (refused ∷ []))
run-IsClosed_example =
    run-IsClosed hashing ops 9 (text "cache") (refused ∷ []) (refl, (tt, (tt, tt))) closed

run-pending_once_example :
    length (
      keep (is_pending_in 9 (fingerprint_of hashing again)) (run hashing (add 1 20 again ∷ ops) []))
    ≤ 1
run-pending_once_example =
    run-pending_once hashing (add 1 20 again ∷ ops) 9 (fingerprint_of hashing again)
