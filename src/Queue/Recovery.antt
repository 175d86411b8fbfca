-- ===== src/Queue/Recovery.antt =====
-- The sweep of lapsed claims (src/domain/claim-service.ts, recoverExpiredClaims).
use project_baracks.Prelude.{
  Mem, Mem-in_keep, ℕ, ◌≡◌, inl, inr, refl, sym, ap, subst, arith, ◌==◌, ◌!=◌, Eq-ℕ, nat_eq_iff,
  Bool, true, not, ◌||◌, any, List, [], ◌∷◌, keep, All, Bool-cases,
}
use project_baracks.Lifecycle.Machine.{Eq-TaskStatus}
use project_baracks.Queue.Types.{◌>>=◌, ClaimRow, Db, ok, ◌>>=◌, bind-ok, update_where, changes}
use project_baracks.Queue.Tasks.{Env}
use project_baracks.Queue.Claims.{
  is_lapsed, expired_claim, is_this_active, requeue_task, expire_all, recover_expired_claims,
}
use project_baracks.Queue.Runs.{requeue_task-claims}

-- A lapsed claim that is still to be expired.
unfoldable covered : ℕ → List ClaimRow → ClaimRow → Bool
covered now lapsed d = not (is_lapsed now d) || any (λ c. c.id == d.id) lapsed

any-id : (d : ClaimRow) (seen : List ClaimRow) → Mem d seen → any (λ c. c.id == d.id) seen ≡ true
any-id d [] h = absurd h
any-id d (c ∷ seen) (inl same) = ground (arith, ap (λ r. r.id) same, nat_eq_iff c.id d.id)
any-id d (c ∷ seen) (inr h) = ground (arith, any-id d seen h)

covered-All :
    (now : ℕ) (seen claims : List ClaimRow)
    → ((d : ClaimRow) → Mem d claims → is_lapsed now d ≡ true → Mem d seen)
    → All (λ d. covered now seen d ≡ true) claims
unfolding covered
covered-All now seen [] h = tt
covered-All now seen (d ∷ claims) h = (
  elim (Bool-cases (is_lapsed now d)) [
    | inl e ↦ ground (arith, e, any-id d seen (h d (inl refl) e))
    | inr e ↦ ground (arith, e)
  ],
  covered-All now seen claims (λ x inside. h x (inr inside)),
)

covered-step :
    (now : ℕ) (claim : ClaimRow) (lapsed claims : List ClaimRow)
    → All (λ d. covered now (claim ∷ lapsed) d ≡ true) claims
    → All
        (λ d. covered now lapsed d ≡ true)
        (update_where (is_this_active claim) (expired_claim claim) claims)
unfolding covered is_lapsed expired_claim
covered-step now claim lapsed [] h = tt
covered-step now claim lapsed (d ∷ claims) h = (
  ground (arith, nat_eq_iff claim.id d.id, nat_eq_iff d.id claim.id),
  covered-step now claim lapsed claims h.1,
)

expire_all-covered :
    (env : Env) (lapsed : List ClaimRow) (db next : Db)
    → expire_all env lapsed db ≡ ok next
    → All (λ d. covered env.now lapsed d ≡ true) db.claims
    → All (λ d. covered env.now [] d ≡ true) next.claims
unfolding expire_all
expire_all-covered env [] db next e h =
    subst (λ cs. All (λ d. covered env.now [] d ≡ true) cs) (ground (arith, e)) h
expire_all-covered env (claim ∷ lapsed) db next e h =
    elim (Bool-cases (changes (is_this_active claim) db.claims != 1)) [
      | inl f ↦ absurd (ground (arith, f))
      | inr f ↦
          let marked : Db = record db {
            claims = update_where (is_this_active claim) (expired_claim claim) db.claims;
          } in
          let e0 : (requeue_task env claim.task_id marked
                >>= (λ requeued. expire_all env lapsed requeued))
              ≡ ok next =
            ground (arith, f) in
          let (requeued, k, e1) = bind-ok (requeue_task env claim.task_id marked) e0 in
          expire_all-covered env lapsed requeued next e1 (
            subst (λ cs. All (λ d. covered env.now lapsed d ≡ true) cs)
              (sym (requeue_task-claims env claim.task_id marked requeued k))
              (covered-step env.now claim lapsed db.claims h))
    ]

none_lapsed :
    (now : ℕ) (claims : List ClaimRow)
    → All (λ d. covered now [] d ≡ true) claims
    → keep (is_lapsed now) claims ≡ []
unfolding covered
none_lapsed now [] h = refl
none_lapsed now (c ∷ claims) h = ground (arith, none_lapsed now claims h.1)

-- A sweep that commits leaves no active claim whose lease has lapsed, and a second sweep at the
-- same time recovers nothing and changes nothing.
recover_expired_claims-idempotent :
    (env : Env) (db : Db) (recovered : List ClaimRow) (next : Db)
    → recover_expired_claims env db ≡ ok (recovered, next)
    → (recovered ≡ keep (is_lapsed env.now) db.claims)
      × (keep (is_lapsed env.now) next.claims ≡ [])
      × (recover_expired_claims env next ≡ ok ([], next))
unfolding recover_expired_claims expire_all
recover_expired_claims-idempotent env db recovered next e =
    let lapsed : List ClaimRow = keep (is_lapsed env.now) db.claims in
    let (swept, k, e1) = bind-ok (expire_all env lapsed db) e in
    let clear : keep (is_lapsed env.now) swept.claims ≡ [] = none_lapsed env.now swept.claims (
      expire_all-covered env lapsed db swept k (
        covered-All env.now lapsed db.claims
          (λ d inside sure. Mem-in_keep (is_lapsed env.now) d db.claims sure inside))) in
    let same : swept ≡ next = ground (arith, e1) in
    let clear_next : keep (is_lapsed env.now) next.claims ≡ [] =
      subst (λ n. keep (is_lapsed env.now) n.claims ≡ []) same clear in
    (ground (arith, e1), clear_next, rw clear_next refl)
