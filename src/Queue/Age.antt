-- ===== src/Queue/Age.antt =====
-- Tasks in the order of their age (src/domain/claim-service.ts, the `orderBy` of claimNextTask).
use mathlib.Core.Option.{some-injective}
use project_baracks.Prelude.{
  true_ne_false, Mem, All-Mem, ℕ, ◌≤◌, ◌≡◌, ◌⊎◌, inl, inr, sym, ap, ◌∙◌, arith, Eq-ℕ, leb, Bool,
  true, false, none, some, List, [], ◌∷◌, find, All, Bool-cases,
}
use project_baracks.Lifecycle.Machine.{Eq-TaskStatus}
use project_baracks.Queue.Types.{TaskRow}
use project_baracks.Queue.Claims.{insert_by_age, order_by_age}

pub ByAge : List TaskRow → Type 0
ByAge [] = Unit
ByAge (t ∷ ts) = All (λ u. t.created_at ≤ u.created_at) ts × ByAge ts

All-weaken :
    (m n : ℕ) (ts : List TaskRow)
    → m ≤ n
    → All (λ u. n ≤ u.created_at) ts
    → All (λ u. m ≤ u.created_at) ts
All-weaken m n [] le h = tt
All-weaken m n (t ∷ ts) le h = (omega (arith, h.0), All-weaken m n ts le h.1)

insert-All :
    (m : ℕ) (t : TaskRow) (ts : List TaskRow)
    → m ≤ t.created_at
    → All (λ u. m ≤ u.created_at) ts
    → All (λ u. m ≤ u.created_at) (insert_by_age t ts)
unfolding insert_by_age
insert-All m t [] le h = (le, tt)
insert-All m t (u ∷ ts) le h = elim (Bool-cases (leb t.created_at u.created_at)) [
  | inl e ↦ rw (e, insert_by_age) (le, h)
  | inr e ↦ rw (e, insert_by_age) (h.0, insert-All m t ts le h.1)
]

insert-ByAge : (t : TaskRow) (ts : List TaskRow) → ByAge ts → ByAge (insert_by_age t ts)
unfolding insert_by_age ByAge
insert-ByAge t [] h = (tt, tt)
insert-ByAge t (u ∷ ts) h = elim (Bool-cases (leb t.created_at u.created_at)) [
  | inl e ↦
      rw (e, insert_by_age)
        ((ground arith, All-weaken t.created_at u.created_at ts (ground arith) h.0), h)
  | inr e ↦
      rw (e, insert_by_age) (insert-All u.created_at t ts (ground arith) h.0, insert-ByAge t ts h.1)
]

pub order-ByAge : (ts : List TaskRow) → ByAge (order_by_age ts)
unfolding order_by_age ByAge
order-ByAge [] = tt
order-ByAge (t ∷ ts) = insert-ByAge t (order_by_age ts) (order-ByAge ts)

Mem-insert : (x t : TaskRow) (ts : List TaskRow) → (x ≡ t) ⊎ Mem x ts → Mem x (insert_by_age t ts)
unfolding insert_by_age
Mem-insert x t [] h = h
Mem-insert x t (u ∷ ts) h = ground (arith, Mem-insert x t ts)

Mem-in_insert :
    (x t : TaskRow) (ts : List TaskRow) → Mem x (insert_by_age t ts) → (x ≡ t) ⊎ Mem x ts
unfolding insert_by_age
Mem-in_insert x t [] h = h
Mem-in_insert x t (u ∷ ts) h = ground (arith, Mem-in_insert x t ts)

pub Mem-order : (x : TaskRow) (ts : List TaskRow) → Mem x ts → Mem x (order_by_age ts)
unfolding order_by_age
Mem-order x [] h = h
Mem-order x (t ∷ ts) h = Mem-insert x t (order_by_age ts) (ground (arith, Mem-order x ts))

pub Mem-in_order : (x : TaskRow) (ts : List TaskRow) → Mem x (order_by_age ts) → Mem x ts
unfolding order_by_age
Mem-in_order x [] h = h
Mem-in_order x (t ∷ ts) h = ground (arith, Mem-in_insert x t (order_by_age ts) h, Mem-in_order x ts)

-- The first that fits, of a list in the order of age, is no younger than any that fits.
pub find-oldest :
    (p : TaskRow → Bool) (t u : TaskRow) (ts : List TaskRow)
    → ByAge ts
    → find p ts ≡ some t
    → Mem u ts
    → p u ≡ true
    → t.created_at ≤ u.created_at
unfolding ByAge
find-oldest p t u [] h found inside fits = absurd inside
find-oldest p t u (x ∷ ts) h found inside fits = elim (Bool-cases (p x)) [
  | inl e ↦
      let here : x ≡ t = some-injective x t (ground (arith, e)) in
      elim inside [
        | inl same ↦ omega (arith, ap (λ r. r.created_at) same, ap (λ r. r.created_at) here)
        | inr later ↦ omega (
          arith,
          ap (λ r. r.created_at) here,
          All-Mem (λ r. x.created_at ≤ r.created_at) u ts h.0 later,
        )
      ]
  | inr e ↦ elim inside [
    | inl same ↦ absurd (true_ne_false (sym fits ∙ ap p same ∙ e))
    | inr later ↦ find-oldest p t u ts h.1 (ground (arith, e)) later fits
  ]
]

pub find-none :
    (p : TaskRow → Bool) (u : TaskRow) (ts : List TaskRow)
    → find p ts ≡ none
    → Mem u ts
    → p u ≡ false
find-none p u [] found inside = absurd inside
find-none p u (x ∷ ts) found inside = elim (Bool-cases (p x)) [
  | inl e ↦ ground (arith, e)
  | inr e ↦ elim inside [
    | inl same ↦ ap p same ∙ e
    | inr later ↦ find-none p u ts (ground (arith, e)) later
  ]
]
