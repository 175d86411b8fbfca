-- ===== src/Runs/Stamps.antt =====
-- The stamp that a paid run leaves on its approval, and the changes of the decisions that keep it
-- (src/domain/run-service.ts, src/domain/decision-service.ts).
use project_baracks.Prelude.{
  ◌≡◌, ◌&&◌, refl, subst, inl, inr, arith, ℕ, ◌!=◌, Eq-ℕ, Text, Bool, true, not, Option, none, some,
  option_eq_iff, Bool-cases, Option-cases, is_some, List, [], ◌∷◌, ◌++◌, Mem,
}
use mathlib.Core.Option.{some-injective}
use project_baracks.Records.Types.{AgentRun, Decision}
use project_baracks.Queue.Types.{update_where, changes}
use project_baracks.Runs.Decisions.{
  get_decision, expire_stale_decisions, is_stale, expired_decision, Resolution, is_open_at,
  resolved_decision, resolve_decision,
}
use project_baracks.Runs.Types.{Store, ok, ◌>>=◌, bind-ok}
use project_baracks.Runs.Create.{
  is_paid, is_consumable, stamped, consume, insert_run, check_consumed,
}

-- The run that the decision of this id is stamped with.
abbrev pub stamp_of : Option Decision → Option ℕ
stamp_of none = none
stamp_of (some d) = d.consumed_by_run_id

-- Every paid run has an approval, and the approval is stamped with the run.
unfoldable pub IsStamped : List AgentRun → List Decision → Type 0
IsStamped rs ds =
    (r : AgentRun)
    → Mem r rs
    → is_paid r.billing_mode ≡ true
    → (id : ℕ) × (r.paid_usage_decision_id ≡ some id) × (stamp_of (get_decision id ds) ≡ some r.id)

-- A change of the decisions that keeps the stamps there are.
unfoldable pub KeepsStamps : List Decision → List Decision → Type 0
KeepsStamps before after =
    (id x : ℕ)
    → stamp_of (get_decision id before) ≡ some x
    → stamp_of (get_decision id after) ≡ some x

update-KeepsStamps :
    (p : Decision → Bool) (f : Decision → Decision) (ds : List Decision)
    → ((d : Decision) → (f d).id ≡ d.id)
    → ((d : Decision) (x : ℕ)
        → p d ≡ true
        → d.consumed_by_run_id ≡ some x
        → (f d).consumed_by_run_id ≡ some x)
    → KeepsStamps ds (update_where p f ds)
unfolding KeepsStamps get_decision
update-KeepsStamps p f [] same keeps id x h = h
update-KeepsStamps p f (d ∷ ds) same keeps id x h =
    ground (arith, same d, keeps d x, update-KeepsStamps p f ds same keeps id x)

pub append-KeepsStamps : (ds more : List Decision) → KeepsStamps ds (ds ++ more)
unfolding KeepsStamps get_decision
append-KeepsStamps [] more id x h = absurd (ground arith)
append-KeepsStamps (d ∷ ds) more id x h = ground (arith, append-KeepsStamps ds more id x)

pub keep-IsStamped :
    (rs : List AgentRun) (before after : List Decision)
    → KeepsStamps before after
    → IsStamped rs before
    → IsStamped rs after
unfolding IsStamped KeepsStamps
keep-IsStamped rs before after keeps h r inside paid =
    let (id, cited, stamp) = h r inside paid in (id, cited, keeps id r.id stamp)

pub expire-KeepsStamps :
    (now : ℕ) (ds : List Decision) → KeepsStamps ds (expire_stale_decisions now ds).0
unfolding expire_stale_decisions
expire-KeepsStamps now ds =
    update-KeepsStamps (is_stale now) (expired_decision now) ds (λ d. refl) (λ d x e h. h)

pub resolve-KeepsStamps :
    (id : ℕ) (outcome : Resolution) (note : Option Text) (now : ℕ) (ds after : List Decision)
    → resolve_decision id outcome note now ds ≡ some after
    → KeepsStamps ds after
unfolding resolve_decision
resolve-KeepsStamps id outcome note now ds after h =
    elim (Bool-cases (changes (is_open_at id) ds != 1)) [
      | inl e ↦ absurd (ground (arith, e))
      | inr e ↦ subst (KeepsStamps ds) (some-injective _ after (ground (arith, e))) (
          update-KeepsStamps (is_open_at id) (resolved_decision outcome note now) ds (λ d. refl)
            (λ d x g k. k))
    ]

pub ok-injective : (a b : List Decision) → ok a ≡ ok b → a ≡ b
ok-injective a b h = ground arith

pub consume-KeepsStamps :
    (r : AgentRun) (ds after : List Decision) → consume r ds ≡ ok after → KeepsStamps ds after
unfolding consume KeepsStamps
consume-KeepsStamps r ds after h = elim (Bool-cases (is_paid r.billing_mode)) [
  | inr free ↦ subst (KeepsStamps ds) (ok-injective ds after (ground (arith, free))) (λ id x k. k)
  | inl paid ↦ elim (Option-cases r.paid_usage_decision_id) [
    | inl e ↦ absurd (ground (arith, paid, e))
    | inr (id, e) ↦ elim (Bool-cases (changes (is_consumable id) ds != 1)) [
      | inl f ↦ absurd (ground (arith, paid, e, f))
      | inr f ↦
          subst (KeepsStamps ds)
            (ok-injective (update_where (is_consumable id) (stamped r.id) ds) after
              (ground (arith, paid, e, f)))
            (update-KeepsStamps (is_consumable id) (stamped r.id) ds (λ d. refl)
              (λ d x g k. absurd (ground (arith, g, k))))
    ]
  ]
]

pub insert_run-steps :
    (r : AgentRun) (s next : Store)
    → insert_run r s ≡ ok next
    → (ds : List Decision) × (consume r s.tables.decisions ≡ ok ds)
      × (next ≡ record s {
        tables = record s.tables { runs = s.tables.runs ++ r ∷ []; decisions = ds };
      })
unfolding insert_run
insert_run-steps r s next h =
    elim (Bool-cases (not (is_paid r.billing_mode) && is_some r.paid_usage_decision_id)) [
      | inl e ↦ absurd (ground (arith, e))
      | inr e ↦
          let chain : (consume r s.tables.decisions >>= λ ds. ok (record s {
            tables = record s.tables { runs = s.tables.runs ++ r ∷ []; decisions = ds };
          }))
              ≡ ok next =
            ground (arith, e) in
          let (ds, consumed, rest) = bind-ok (consume r s.tables.decisions) chain in
          (ds, consumed, ground (arith, rest))
    ]

pub consume-cited :
    (r : AgentRun) (ds after : List Decision)
    → consume r ds ≡ ok after
    → is_paid r.billing_mode ≡ true
    → (id : ℕ) × (r.paid_usage_decision_id ≡ some id)
unfolding consume
consume-cited r ds after h paid = elim (Option-cases r.paid_usage_decision_id) [
  | inl e ↦ absurd (ground (arith, e))
  | inr cited ↦ cited
]

pub consumed_stamp :
    (r : AgentRun) (s : Store) (id : ℕ)
    → check_consumed r s ≡ ok tt
    → is_paid r.billing_mode ≡ true
    → r.paid_usage_decision_id ≡ some id
    → stamp_of (get_decision id s.tables.decisions) ≡ some r.id
unfolding check_consumed
consumed_stamp r s id h paid e = elim (Option-cases (get_decision id s.tables.decisions)) [
  | inl f ↦ absurd (ground (arith, e, f))
  | inr (d, f) ↦ ground (arith, e, f, option_eq_iff d.consumed_by_run_id (some r.id))
]
