-- ===== src/Goals/Sessions.antt =====
-- Sessions, and the authorization of one as the workshop of a project (src/supervisor/state.ts,
-- attachSession, authorizeSessionWorkshop and revokeSessionWorkshop).
use project_baracks.Prelude.{
  ℕ, ◌-◌, ◌==◌, Eq-ℕ, Text, Eq-Text, Bool, true, false, ◌&&◌, ◌||◌, Option, none, some, option_eq,
  List, [], ◌∷◌, ◌++◌, length,
}
use project_baracks.Queue.Types.{update_where, changes}
use project_baracks.Goals.Types.{Host, SessionAttachment}

-- Drops `n` items from the front.
unfoldable pub drop : {A : Type 0} → ℕ → List A → List A
drop n [] = []
drop n (x ∷ xs) = elim (n == 0) [ true ↦ x ∷ xs | false ↦ drop (n - 1) xs ]

-- `slice(-199)` and `push`
unfoldable pub attached : SessionAttachment → List SessionAttachment → List SessionAttachment
attached session sessions = drop (length sessions - 199) sessions ++ session ∷ []

-- A text that is absent or empty is left out.
abbrev pub given : Option Text → Option Text
given none = none
given (some []) = none
given (some (c ∷ cs)) = some (c ∷ cs)

abbrev pub resolved : Host → Option Text → Option Text
resolved h path = elim (given path) [ none ↦ none | some p ↦ some (h.resolve p) ]

pub record NewSession : Type 0 where
  pub host : Text
  pub cwd : Text
  pub project : Option Text
  pub repo_path : Option Text
  pub session_id : Option Text

unfoldable pub new_session : Host → (id now : ℕ) → NewSession → SessionAttachment
new_session h id now input = record {
  id = id;
  host = input.host;
  cwd = h.resolve input.cwd;
  project = given input.project;
  repo_path = resolved h input.repo_path;
  session_id = given input.session_id;
  workshop_authorization = none;
  attached_at = now;
}

unfoldable pub attach_session :
    Host → (id now : ℕ) → NewSession → List SessionAttachment → List SessionAttachment
attach_session h id now input sessions = attached (new_session h id now input) sessions

unfoldable pub has_workshop : SessionAttachment → Bool
has_workshop s = elim s.workshop_authorization [ none ↦ false | some w ↦ w.is_active ]

-- `commonDir` against a session's path: two repositories of one common directory are the same.
unfoldable pub in_common_dir : Host → Option Text → SessionAttachment → Bool
in_common_dir h common s = elim common [
  | none ↦ false
  | some dir ↦ elim s.repo_path [
    | none ↦ false
    | some path ↦ option_eq (h.git_common_dir (h.resolve path)) (some dir)
  ]
]

abbrev pub revoked : (now : ℕ) → SessionAttachment → SessionAttachment
revoked now s = elim s.workshop_authorization [
  | none ↦ s
  | some w ↦ record s {
    workshop_authorization = some (record w { is_active = false; revoked_at = some now });
  }
]

pub record Authorization : Type 0 where
  pub host : Text
  pub cwd : Text
  pub project : Text
  pub repo_path : Text
  pub session_id : Text
  pub expires_at : ℕ

unfoldable pub is_replaced : Host → Authorization → SessionAttachment → Bool
is_replaced h input s =
    has_workshop s
    && (option_eq s.project (some input.project)
        || in_common_dir h (h.git_common_dir (h.resolve input.repo_path)) s)

unfoldable pub workshop_session : Host → (id now : ℕ) → Authorization → SessionAttachment
workshop_session h id now input = record {
  id = id;
  host = input.host;
  cwd = h.resolve input.cwd;
  project = some input.project;
  repo_path = some (h.resolve input.repo_path);
  session_id = some input.session_id;
  workshop_authorization = some (record {
    is_active = true;
    authorized_at = now;
    expires_at = input.expires_at;
    revoked_at = none;
  });
  attached_at = now;
}

unfoldable pub authorize_session_workshop :
    Host → (id now : ℕ) → Authorization → List SessionAttachment → List SessionAttachment
authorize_session_workshop h id now input sessions =
    attached (workshop_session h id now input)
      (update_where (is_replaced h input) (revoked now) sessions)

pub record Revocation : Type 0 where
  pub session_id : Option Text
  pub repo_path : Option Text

abbrev names_session : Option Text → SessionAttachment → Bool
names_session none s = true
names_session (some id) s = option_eq s.session_id (some id)

-- An empty path has no common directory.
abbrev common_of : Host → Option Text → Option Text
common_of h none = none
common_of h (some []) = none
common_of h (some (c ∷ cs)) = h.git_common_dir (h.resolve (c ∷ cs))

unfoldable pub is_revoked : Host → Revocation → SessionAttachment → Bool
is_revoked h input s = has_workshop s && names_session input.session_id s && elim input.repo_path [
  | none ↦ true
  | some path ↦ in_common_dir h (common_of h (some path)) s
]

unfoldable pub revoke_session_workshop :
    Host → (now : ℕ) → Revocation → List SessionAttachment → List SessionAttachment × ℕ
revoke_session_workshop h now input sessions = (
  update_where (is_revoked h input) (revoked now) sessions,
  changes (is_revoked h input) sessions,
)
