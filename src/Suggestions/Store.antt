-- ===== src/Suggestions/Store.antt =====
-- The table of suggestions and its operations (src/domain/task-service.ts). The columns that are only
-- stored (rationale, source and roadmap item) are left out; an id is new where it is inserted.
use project_baracks.Prelude.{
  ℕ, ◌==◌, ◌!=◌, Eq-ℕ, ltb, Text, Eq-Text, Bool, true, false, not, ◌&&◌, Option, none, some,
  option_eq, is_none, get_or, List, [], ◌∷◌, ◌++◌, keep, find, if◌then◌else◌,
}
use project_baracks.Queue.Types.{update_where, changes}
use project_baracks.Suggestions.Fingerprint.{Hashing, scope_fingerprint}

pub data SuggestionStatus : Type 0 where
  pending approved rejected : SuggestionStatus

abbrev pub is_pending : SuggestionStatus → Bool
is_pending pending = true
is_pending _ = false

abbrev is_rejected : SuggestionStatus → Bool
is_rejected rejected = true
is_rejected _ = false

abbrev pub is_approved : SuggestionStatus → Bool
is_approved approved = true
is_approved _ = false

pub record Suggestion : Type 0 where
  pub id : ℕ
  pub project_id : ℕ
  pub title : Text
  pub description : Text
  pub scope_fingerprint : Text
  pub status : SuggestionStatus
  pub decided_at : Option ℕ
  pub decision_note : Option Text
  pub superseded_by_id : Option ℕ
  pub created_at : ℕ

pub record NewSuggestion : Type 0 where
  pub project_id : ℕ
  pub title : Text
  pub description : Option Text
  pub supersedes : Option ℕ

pub data SuggestionOutcome : Type 0 where
  created : Suggestion → SuggestionOutcome
  duplicate : Suggestion → SuggestionOutcome
  suppressed : Suggestion → SuggestionOutcome

pub data SuggestionError : Type 0 where
  suggestion_not_found : ℕ → SuggestionError
  already_decided : ℕ → SuggestionStatus → SuggestionError
  decided_concurrently : ℕ → SuggestionError
  approval_unavailable : SuggestionError

pub data Result (A : Type 0) : Type 0 where
  ok : A → Result A
  err : SuggestionError → Result A

abbrev pub fingerprint_of : Hashing → NewSuggestion → Text
fingerprint_of h input = scope_fingerprint h input.title (get_or input.description [])

-- A suggestion with this scope in this project.
abbrev in_scope : ℕ → Text → Suggestion → Bool
in_scope project_id fingerprint s = s.project_id == project_id && s.scope_fingerprint == fingerprint

unfoldable pub is_pending_in : ℕ → Text → Suggestion → Bool
is_pending_in project_id fingerprint s = in_scope project_id fingerprint s && is_pending s.status

-- A rejection of the scope that nothing has superseded.
unfoldable pub is_rejected_in : ℕ → Text → Suggestion → Bool
is_rejected_in project_id fingerprint s =
    in_scope project_id fingerprint s && is_rejected s.status && is_none s.superseded_by_id

-- `orderBy(desc(createdAt)).get()`
unfoldable pub latest : List Suggestion → Option Suggestion
latest [] = none
latest (s ∷ ss) = elim (latest ss) [
  | none ↦ some s
  | some t ↦ if ltb s.created_at t.created_at then some t else some s
]

unfoldable pub new_suggestion : Hashing → (id now : ℕ) → NewSuggestion → Suggestion
new_suggestion h id now input = record {
  id = id;
  project_id = input.project_id;
  title = input.title;
  description = get_or input.description [];
  scope_fingerprint = fingerprint_of h input;
  status = pending;
  decided_at = none;
  decision_note = none;
  superseded_by_id = none;
  created_at = now;
}

abbrev pub superseded : ℕ → Suggestion → Suggestion
superseded by s = record s { superseded_by_id = some by }

unfoldable pub add_suggestion :
    Hashing → (id now : ℕ) → NewSuggestion → List Suggestion → List Suggestion × SuggestionOutcome
add_suggestion h id now input ss =
    let row = new_suggestion h id now input in
    elim (find (is_pending_in input.project_id (fingerprint_of h input)) ss) [
      | some waiting ↦ (ss, duplicate waiting)
      | none ↦ elim (latest (keep (is_rejected_in input.project_id (fingerprint_of h input)) ss)) [
        | none ↦ (ss ++ row ∷ [], created row)
        | some refused ↦
            if option_eq input.supersedes (some refused.id)
            then (
              update_where (λ s. s.id == refused.id) (superseded id) (ss ++ row ∷ []),
              created row,
            )
            else (ss, suppressed refused)
      ]
    ]

abbrev pub get_suggestion : ℕ → List Suggestion → Option Suggestion
get_suggestion id ss = find (λ s. s.id == id) ss

abbrev pub is_pending_with : ℕ → Suggestion → Bool
is_pending_with id s = s.id == id && is_pending s.status

abbrev pub refused_at : ℕ → Option Text → Suggestion → Suggestion
refused_at now note s = record s { status = rejected; decided_at = some now; decision_note = note }

unfoldable pub reject_suggestion :
    (id now : ℕ) → Option Text → List Suggestion → Result (List Suggestion)
reject_suggestion id now note ss = elim (get_suggestion id ss) [
  | none ↦ err (suggestion_not_found id)
  | some s ↦
      if not (is_pending s.status)
      then err (already_decided id s.status)
      else if changes (is_pending_with id) ss != 1
      then err (decided_concurrently id)
      else ok (update_where (is_pending_with id) (refused_at now note) ss)
]

-- `assertApprovalEnabled` always throws, so that what follows it is never reached.
unfoldable pub approve_suggestion :
    (id : ℕ) → Option Text → List Suggestion → Result (List Suggestion)
approve_suggestion id reason ss = err approval_unavailable
