-- ===== src/Queue/Keys.antt =====
-- Updates of tables with a primary key (src/domain/claim-service.ts, src/domain/task-service.ts).
use mathlib.Core.Option.{some-injective}
use project_baracks.Prelude.{
  if◌then◌else◌, Mem, ℕ, ◌≡◌, inl, inr, refl, sym, ap, subst, ◌∙◌, arith, ◌==◌, Eq-ℕ, nat_eq_iff,
  Bool, true, false, any, some, List, [], ◌∷◌, keep, find, Bool-cases, true_ne_false,
}
use project_baracks.Lifecycle.Machine.{Eq-TaskStatus}
use project_baracks.Queue.Types.{is_active, TaskRow, ClaimRow, update_where, changes}
use project_baracks.Queue.Tasks.{is_unchanged}
use project_baracks.Queue.Claims.{expired_claim, is_this_active}
use project_baracks.Queue.Guards.{unchanged_self}

-- No two rows have the same id: the primary keys of the tables.
unfoldable pub UniqueClaims : List ClaimRow → Type 0
UniqueClaims [] = Unit
UniqueClaims (c ∷ cs) = (any (λ d. d.id == c.id) cs ≡ false) × UniqueClaims cs

unfoldable pub UniqueTasks : List TaskRow → Type 0
UniqueTasks [] = Unit
UniqueTasks (t ∷ ts) = (any (λ u. u.id == t.id) ts ≡ false) × UniqueTasks ts

any_id : (c : ClaimRow) (cs : List ClaimRow) → Mem c cs → any (λ d. d.id == c.id) cs ≡ true
any_id c [] h = absurd h
any_id c (d ∷ cs) (inl same) = ground (arith, ap (λ r. r.id) same, nat_eq_iff d.id c.id)
any_id c (d ∷ cs) (inr h) = ground (arith, any_id c cs h)

keep-any :
    (p : ClaimRow → Bool) (i : ℕ) (cs : List ClaimRow)
    → any (λ d. d.id == i) cs ≡ false
    → any (λ d. d.id == i) (keep p cs) ≡ false
keep-any p i [] h = refl
keep-any p i (c ∷ cs) h = ground (arith, keep-any p i cs)

pub keep-UniqueClaims :
    (p : ClaimRow → Bool) (cs : List ClaimRow) → UniqueClaims cs → UniqueClaims (keep p cs)
unfolding UniqueClaims
keep-UniqueClaims p [] h = tt
keep-UniqueClaims p (c ∷ cs) h = elim (Bool-cases (p c)) [
  | inl e ↦ rw e (keep-any p c.id cs h.0, keep-UniqueClaims p cs h.1)
  | inr e ↦ rw e (keep-UniqueClaims p cs h.1)
]

changes-none :
    (read : ClaimRow) (cs : List ClaimRow)
    → any (λ d. d.id == read.id) cs ≡ false
    → changes (is_this_active read) cs ≡ 0
changes-none read [] h = refl
changes-none read (c ∷ cs) h = ground (arith, changes-none read cs)

-- An active claim of a table with a primary key is updated once.
pub changes-once :
    (c : ClaimRow) (cs : List ClaimRow)
    → UniqueClaims cs
    → Mem c cs
    → is_active c.status ≡ true
    → changes (is_this_active c) cs ≡ 1
unfolding UniqueClaims
changes-once c [] unique h sure = absurd h
changes-once c (d ∷ cs) unique (inl same) sure =
    let away : any (λ x. x.id == c.id) cs ≡ false =
      subst (λ i. any (λ x. x.id == i) cs ≡ false) (ap (λ r. r.id) (sym same)) unique.0 in
    let here : (d.id == c.id) ≡ true = (nat_eq_iff d.id c.id).1 (ap (λ r. r.id) (sym same)) in
    let live : is_active d.status ≡ true = subst (λ r. is_active r.status ≡ true) same sure in
    ground (arith, here, live, changes-none c cs away)
changes-once c (d ∷ cs) unique (inr h) sure =
    let apart : (d.id == c.id) ≡ false = elim (Bool-cases (d.id == c.id)) [
      | inl e ↦ absurd (
          true_ne_false (
            sym (any_id c cs h)
            ∙ subst (λ i. any (λ x. x.id == i) cs ≡ false) ((nat_eq_iff d.id c.id).0 e) unique.0))
      | inr e ↦ e
    ] in
    ground (arith, apart, changes-once c cs unique.1 h sure)

-- Expiring one claim leaves the others' updates as they are.
pub changes-other :
    (read c : ClaimRow) (cs : List ClaimRow)
    → (read.id == c.id) ≡ false
    → changes (is_this_active c) (update_where (is_this_active read) (expired_claim read) cs)
      ≡ changes (is_this_active c) cs
unfolding expired_claim
changes-other read c [] apart = refl
changes-other read c (d ∷ cs) apart = ground (
  arith,
  changes-other read c cs apart,
  nat_eq_iff d.id c.id,
  nat_eq_iff d.id read.id,
  nat_eq_iff read.id c.id,
)

task-none :
    (read : TaskRow) (ts : List TaskRow)
    → any (λ u. u.id == read.id) ts ≡ false
    → changes (is_unchanged read) ts ≡ 0
unfolding is_unchanged
task-none read [] h = refl
task-none read (t ∷ ts) h = ground (arith, task-none read ts)

different : (read t : TaskRow) → (t.id == read.id) ≡ false → is_unchanged read t ≡ false
unfolding is_unchanged
different read t e = ground (arith, e)

pub task-once :
    (read : TaskRow) (ts : List TaskRow)
    → UniqueTasks ts
    → find (λ t. t.id == read.id) ts ≡ some read
    → changes (is_unchanged read) ts ≡ 1
unfolding UniqueTasks
task-once read [] unique h = ground (arith, h)
task-once read (t ∷ ts) unique h = elim (Bool-cases (t.id == read.id)) [
  | inl e ↦
      let here : t ≡ read = some-injective t read (ground (arith, e)) in
      let away : any (λ u. u.id == read.id) ts ≡ false =
        subst (λ r. any (λ u. u.id == r.id) ts ≡ false) here unique.0 in
      rw (here, unchanged_self read) (ground (arith, task-none read ts away))
  | inr e ↦ ground (arith, different read t e, task-once read ts unique.1 (ground (arith, e)))
]

update-any :
    (p : TaskRow → Bool) (f : TaskRow → TaskRow) (i : ℕ) (ts : List TaskRow)
    → ((t : TaskRow) → (f t).id ≡ t.id)
    → any (λ u. u.id == i) (update_where p f ts) ≡ any (λ u. u.id == i) ts
update-any p f i [] keeps = refl
update-any p f i (t ∷ ts) keeps = elim (Bool-cases (p t)) [
  | inl e ↦ rw (e, keeps t, update-any p f i ts keeps) refl
  | inr e ↦ rw (e, update-any p f i ts keeps) refl
]

pub update-UniqueTasks :
    (p : TaskRow → Bool) (f : TaskRow → TaskRow) (ts : List TaskRow)
    → ((t : TaskRow) → (f t).id ≡ t.id)
    → UniqueTasks ts
    → UniqueTasks (update_where p f ts)
unfolding UniqueTasks
update-UniqueTasks p f [] keeps h = tt
update-UniqueTasks p f (t ∷ ts) keeps h =
    let kept : (if p t then f t else t).id ≡ t.id = elim (Bool-cases (p t)) [
      | inl e ↦ rw e (keeps t)
      | inr e ↦ rw e refl
    ] in
    (rw kept (update-any p f t.id ts keeps ∙ h.0), update-UniqueTasks p f ts keeps h.1)
