-- ===== src/Goals/Workshops.antt =====
-- The number of sessions that are kept, and one workshop for each project
-- (src/supervisor/state.ts, attachSession, authorizeSessionWorkshop, revokeSessionWorkshop).
use project_baracks.Prelude.{
  ◌≡◌, ◌≤◌, ◌+◌, ◌-◌, refl, sym, subst, inl, inr, arith, ℕ, ◌==◌, Eq-ℕ, Text, Eq-Text, text_eq_iff,
  Bool, true, false, ◌&&◌, some, option_eq, List, [], ◌∷◌, length, length-append, keep, keep-append,
  Bool-cases, Option-cases,
}
use project_baracks.Queue.Types.{update_where}
use project_baracks.Suggestions.Runs.{update-keep_le}
use project_baracks.Goals.Types.{Host, SessionAttachment}
use project_baracks.Goals.Sessions.{
  drop, attached, NewSession, new_session, attach_session, has_workshop, revoked, Authorization,
  is_replaced, workshop_session, authorize_session_workshop, Revocation, is_revoked,
  revoke_session_workshop,
}

pub data SessionOp : Type 0 where
  attach : (id now : ℕ) → NewSession → SessionOp
  authorize : (id now : ℕ) → Authorization → SessionOp
  revoke : (now : ℕ) → Revocation → SessionOp

unfoldable pub apply : Host → SessionOp → List SessionAttachment → List SessionAttachment
apply h (attach id now input) ss = attach_session h id now input ss
apply h (authorize id now input) ss = authorize_session_workshop h id now input ss
apply h (revoke now input) ss = (revoke_session_workshop h now input ss).0

unfoldable pub run : Host → List SessionOp → List SessionAttachment → List SessionAttachment
run h [] ss = ss
run h (op ∷ ops) ss = run h ops (apply h op ss)

-- A session that is the active workshop of the project.
abbrev is_workshop_of : Text → SessionAttachment → Bool
is_workshop_of project s = option_eq s.project (some project) && has_workshop s

length-drop : {A : Type 0} (n : ℕ) (xs : List A) → length (drop n xs) ≡ length xs - n
unfolding drop
length-drop n [] = omega arith
length-drop n (x ∷ xs) = elim (Bool-cases (n == 0)) [
  | inl e ↦ rw (e, drop) (ground arith)
  | inr e ↦ rw (e, drop) (ground (arith, length-drop (n - 1) xs))
]

keep-drop_le :
    {A : Type 0} (q : A → Bool) (n : ℕ) (xs : List A)
    → length (keep q (drop n xs)) ≤ length (keep q xs)
unfolding drop
keep-drop_le q n [] = omega arith
keep-drop_le q n (x ∷ xs) = elim (Bool-cases (n == 0)) [
  | inl e ↦ rw (e, drop) (omega arith)
  | inr e ↦ rw (e, drop) (ground (arith, keep-drop_le q (n - 1) xs))
]

length-update :
    {A : Type 0} (p : A → Bool) (f : A → A) (xs : List A) → length (update_where p f xs) ≡ length xs
length-update p f [] = refl
length-update p f (x ∷ xs) = omega (arith, length-update p f xs)

keep-update_zero :
    {A : Type 0} (q p : A → Bool) (f : A → A) (xs : List A)
    → ((x : A) → q x ≡ true → p x ≡ true)
    → ((x : A) → q (f x) ≡ false)
    → length (keep q (update_where p f xs)) ≡ 0
keep-update_zero q p f [] picks never = refl
keep-update_zero q p f (x ∷ xs) picks never =
    ground (arith, picks x, never x, keep-update_zero q p f xs picks never)

-- 200 sessions at most are kept, and each project has one active workshop at most.
unfoldable pub IsTidy : List SessionAttachment → Type 0
IsTidy ss = (length ss ≤ 200) × ((project : Text) → length (keep (is_workshop_of project) ss) ≤ 1)

attached-length :
    (s : SessionAttachment) (ss : List SessionAttachment) → length (attached s ss) ≤ 200
unfolding attached
attached-length s ss =
    omega
      (arith, length-append (drop (length ss - 199) ss) (s ∷ []), length-drop (length ss - 199) ss)

attached-keep :
    (q : SessionAttachment → Bool) (s : SessionAttachment) (ss : List SessionAttachment)
    → length (keep q (attached s ss)) ≤ length (keep q ss) + length (keep q (s ∷ []))
unfolding attached
attached-keep q s ss =
    let kept : List SessionAttachment = drop (length ss - 199) ss in
    subst (λ l. length l ≤ length (keep q ss) + length (keep q (s ∷ [])))
      (sym (keep-append q kept (s ∷ [])))
      (omega
        (arith, length-append (keep q kept) (keep q (s ∷ [])), keep-drop_le q (length ss - 199) ss))

revoked_never :
    (now : ℕ) (project : Text) (s : SessionAttachment)
    → is_workshop_of project (revoked now s) ≡ false
unfolding has_workshop
revoked_never now project s = elim (Option-cases s.workshop_authorization) [
  | inl e ↦ rw e (ground (arith, e))
  | inr (w, e) ↦ rw e (ground arith)
]

attach-IsTidy :
    (h : Host) (id now : ℕ) (input : NewSession) (ss : List SessionAttachment)
    → IsTidy ss
    → IsTidy (attach_session h id now input ss)
unfolding IsTidy attach_session new_session has_workshop
attach-IsTidy h id now input ss tidy = (
  attached-length (new_session h id now input) ss,
  λ project. ground (
    arith,
    attached-keep (is_workshop_of project) (new_session h id now input) ss,
    tidy.1 project,
  ),
)

-- The active workshops of the project are the ones that an authorization replaces.
replaced_own :
    (h : Host) (input : Authorization) (s : SessionAttachment)
    → is_workshop_of input.project s ≡ true
    → is_replaced h input s ≡ true
unfolding is_replaced
replaced_own h input s own = ground (arith, own)

workshop-other :
    (h : Host) (id now : ℕ) (input : Authorization) (project : Text)
    → (input.project == project) ≡ false
    → length (keep (is_workshop_of project) (workshop_session h id now input ∷ [])) ≡ 0
unfolding workshop_session has_workshop
workshop-other h id now input project other = ground (arith, other)

one_at_most : (q : SessionAttachment → Bool) (s : SessionAttachment) → length (keep q (s ∷ [])) ≤ 1
one_at_most q s = ground arith

authorize-IsTidy :
    (h : Host) (id now : ℕ) (input : Authorization) (ss : List SessionAttachment)
    → IsTidy ss
    → IsTidy (authorize_session_workshop h id now input ss)
unfolding IsTidy authorize_session_workshop
authorize-IsTidy h id now input ss tidy =
    let new : SessionAttachment = workshop_session h id now input in
    let rest : List SessionAttachment = update_where (is_replaced h input) (revoked now) ss in
    (
      attached-length new rest,
      λ project. elim (Bool-cases (input.project == project)) [
        | inl e ↦
            let same : input.project ≡ project = (text_eq_iff input.project project).0 e in
            let none_left : length (keep (is_workshop_of project) rest) ≡ 0 =
              keep-update_zero (is_workshop_of project) (is_replaced h input) (revoked now) ss
                (λ s own.
                  replaced_own h input s (subst (λ p. is_workshop_of p s ≡ true) (sym same) own))
                (revoked_never now project) in
            omega (
              arith,
              attached-keep (is_workshop_of project) new rest,
              one_at_most (is_workshop_of project) new,
              none_left,
            )
        | inr other ↦ omega (
          arith,
          attached-keep (is_workshop_of project) new rest,
          workshop-other h id now input project other,
          update-keep_le (is_workshop_of project) (is_replaced h input) (revoked now) ss
              (λ s k. absurd (ground (arith, revoked_never now project s, k))),
          tidy.1 project,
        )
      ],
    )

revoke-IsTidy :
    (h : Host) (now : ℕ) (input : Revocation) (ss : List SessionAttachment)
    → IsTidy ss
    → IsTidy (revoke_session_workshop h now input ss).0
unfolding IsTidy revoke_session_workshop
revoke-IsTidy h now input ss tidy = (
  omega (arith, length-update (is_revoked h input) (revoked now) ss, tidy.0),
  λ project. omega (
    arith,
    update-keep_le (is_workshop_of project) (is_revoked h input) (revoked now) ss
        (λ s k. absurd (ground (arith, revoked_never now project s, k))),
    tidy.1 project,
  ),
)

apply-IsTidy :
    (h : Host) (op : SessionOp) (ss : List SessionAttachment) → IsTidy ss → IsTidy (apply h op ss)
unfolding apply
apply-IsTidy h (attach id now input) ss tidy = attach-IsTidy h id now input ss tidy
apply-IsTidy h (authorize id now input) ss tidy = authorize-IsTidy h id now input ss tidy
apply-IsTidy h (revoke now input) ss tidy = revoke-IsTidy h now input ss tidy

-- 200 sessions at most are kept, and each project has one active workshop at most, through any
-- attachments, authorizations and revocations.
pub run-IsTidy :
    (h : Host) (ops : List SessionOp) (ss : List SessionAttachment)
    → IsTidy ss
    → IsTidy (run h ops ss)
unfolding run
run-IsTidy h [] ss tidy = tidy
run-IsTidy h (op ∷ ops) ss tidy = run-IsTidy h ops (apply h op ss) (apply-IsTidy h op ss tidy)
