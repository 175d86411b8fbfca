-- ===== src/Runs/History.antt =====
-- The numbering of a run's events and the redelivery of one (src/domain/run-service.ts,
-- appendRunEvent).
use mathlib.Core.List.{append-nil}
use project_baracks.Prelude.{
  ◌≡◌, ◌≢◌, ◌<◌, refl, sym, ap, ◌∙◌, subst, inl, inr, arith, ℕ, zero, suc, ◌==◌, Eq-ℕ, nat_eq_iff,
  Text, Eq-Text, text_eq_iff, Bool, true, false, Option, none, some, option_eq_iff, Bool-cases,
  Option-cases, List, [], ◌∷◌, ◌++◌, map, keep, keep-append, find, ◌&&◌,
}
use project_baracks.Runs.Events.{
  key_text, RunEvent, Redaction, Appended, duplicate, conflicting, has_key, find_key, last_seq,
  new_event, append_run_event,
}

-- An append as it is asked for.
pub record Append : Type 0 where
  pub id : ℕ
  pub run_id : ℕ
  pub event_type : Text
  pub payload : Text
  pub event_key : Option Text

abbrev pub appended : Redaction → Append → List RunEvent → List RunEvent × Appended
appended r a es = append_run_event r a.id a.run_id a.event_type a.payload a.event_key es

unfoldable pub append_all : Redaction → List Append → List RunEvent → List RunEvent
append_all r [] es = es
append_all r (a ∷ rest) es = append_all r rest (appended r a es).0

-- 1, 2, …, n
unfoldable pub count_up : ℕ → List ℕ
count_up zero = []
count_up (suc n) = count_up n ++ suc n ∷ []

abbrev pub seqs : ℕ → List RunEvent → List ℕ
seqs run_id es = map (λ e. e.seq) (keep (λ e. e.run_id == run_id) es)

map-append : {A B : Type 0} (f : A → B) (xs ys : List A) → map f (xs ++ ys) ≡ map f xs ++ map f ys
map-append f [] ys = refl
map-append f (x ∷ xs) ys = ap (λ zs. f x ∷ zs) (map-append f xs ys)

last_seq-snoc :
    (run_id : ℕ) (es : List RunEvent) (e : RunEvent)
    → e.run_id ≡ run_id
    → last_seq run_id es < e.seq
    → last_seq run_id (es ++ e ∷ []) ≡ e.seq
unfolding last_seq
last_seq-snoc run_id [] e own above = ground (arith, nat_eq_iff e.run_id run_id)
last_seq-snoc run_id (d ∷ es) e own above = ground (arith, last_seq-snoc run_id es e own)

last_seq-other :
    (run_id : ℕ) (es : List RunEvent) (e : RunEvent)
    → (e.run_id == run_id) ≡ false
    → last_seq run_id (es ++ e ∷ []) ≡ last_seq run_id es
unfolding last_seq
last_seq-other run_id [] e other = ground arith
last_seq-other run_id (d ∷ es) e other = ground (arith, last_seq-other run_id es e other)

-- The events of every run are numbered in the order of their insertion, from 1 and without gaps.
IsNumbered : List RunEvent → Type 0
IsNumbered es = (run_id : ℕ) → seqs run_id es ≡ count_up (last_seq run_id es)

snoc-IsNumbered :
    (es : List RunEvent) (e : RunEvent)
    → e.seq ≡ suc (last_seq e.run_id es)
    → IsNumbered es
    → IsNumbered (es ++ e ∷ [])
unfolding IsNumbered count_up
snoc-IsNumbered es e next h run_id = elim (Bool-cases (e.run_id == run_id)) [
  | inl own ↦
      let here : e.run_id ≡ run_id = (nat_eq_iff e.run_id run_id).0 own in
      let last : last_seq run_id (es ++ e ∷ []) ≡ suc (last_seq run_id es) =
        last_seq-snoc run_id es e here
          (subst (λ i. last_seq i es < e.seq) here (omega (arith, next)))
        ∙ next
        ∙ ap (λ i. suc (last_seq i es)) here in
      rw (last, keep-append (λ d. d.run_id == run_id) es (e ∷ []), own)
        (map-append (λ d. d.seq) (keep (λ d. d.run_id == run_id) es) (e ∷ [])
          ∙ ap (λ (xs : List ℕ). xs ++ e.seq ∷ []) (h run_id)
          ∙ ap (λ (n : ℕ). count_up (last_seq run_id es) ++ n ∷ [])
              (next ∙ ap (λ i. suc (last_seq i es)) here))
  | inr other ↦
      rw
        (last_seq-other run_id es e other, keep-append (λ d. d.run_id == run_id) es (e ∷ []), other)
        (map-append (λ d. d.seq) (keep (λ d. d.run_id == run_id) es) []
          ∙ append-nil (seqs run_id es)
          ∙ h run_id)
]

new_event-seq :
    (r : Redaction) (a : Append) (es : List RunEvent)
    → (new_event r a.id a.run_id a.event_type a.payload a.event_key es).seq
      ≡ suc (last_seq (new_event r a.id a.run_id a.event_type a.payload a.event_key es).run_id es)
unfolding new_event
new_event-seq r a es = omega arith

append-IsNumbered :
    (r : Redaction) (a : Append) (es : List RunEvent)
    → IsNumbered es
    → IsNumbered (appended r a es).0
unfolding append_run_event
append-IsNumbered r a es h = elim (Option-cases (find_key a.run_id a.event_key es)) [
  | inl e ↦
      let row : RunEvent = new_event r a.id a.run_id a.event_type a.payload a.event_key es in
      rw (e, append_run_event) (snoc-IsNumbered es row (new_event-seq r a es) h)
  | inr (existing, e) ↦
      elim (Bool-cases (
        existing.payload_hash == r.digest a.event_type (r.redact a.payload)
        && existing.event_type == a.event_type)) [
          | inl f ↦ rw (e, append_run_event, f) h
          | inr f ↦ rw (e, append_run_event, f) h
        ]
]

append_all-IsNumbered :
    (r : Redaction) (appends : List Append) (es : List RunEvent)
    → IsNumbered es
    → IsNumbered (append_all r appends es)
unfolding append_all
append_all-IsNumbered r [] es h = h
append_all-IsNumbered r (a ∷ rest) es h =
    append_all-IsNumbered r rest (appended r a es).0 (append-IsNumbered r a es h)

-- After any appends to an empty history the events of each run are numbered 1, 2, … in the order in
-- which they were added, without a gap and without a repetition.
pub append_all-seqs :
    (r : Redaction) (appends : List Append) (run_id : ℕ)
    → seqs run_id (append_all r appends []) ≡ count_up (last_seq run_id (append_all r appends []))
unfolding IsNumbered last_seq count_up
append_all-seqs r appends = append_all-IsNumbered r appends [] (λ run_id. refl)

find-append :
    (p : RunEvent → Bool) (xs ys : List RunEvent) (e : RunEvent)
    → find p xs ≡ some e
    → find p (xs ++ ys) ≡ some e
find-append p [] ys e h = absurd (ground arith)
find-append p (x ∷ xs) ys e h = ground (arith, find-append p xs ys e)

find-snoc :
    (p : RunEvent → Bool) (xs : List RunEvent) (e : RunEvent)
    → find p xs ≡ none
    → p e ≡ true
    → find p (xs ++ e ∷ []) ≡ some e
find-snoc p [] e h sure = ground arith
find-snoc p (x ∷ xs) e h sure = ground (arith, find-snoc p xs e)

find_key-appended :
    (r : Redaction) (a : Append) (es : List RunEvent) (run_id : ℕ) (key : Text) (e : RunEvent)
    → find_key run_id (some key) es ≡ some e
    → find_key run_id (some key) (appended r a es).0 ≡ some e
unfolding append_run_event
find_key-appended r a es run_id key e h = elim (Option-cases (find_key a.run_id a.event_key es)) [
  | inl f ↦
      rw (f, append_run_event)
        (find-append (has_key run_id key) es
          (new_event r a.id a.run_id a.event_type a.payload a.event_key es ∷ []) e h)
  | inr (existing, f) ↦
      elim (Bool-cases (
        existing.payload_hash == r.digest a.event_type (r.redact a.payload)
        && existing.event_type == a.event_type)) [
          | inl g ↦ rw (f, append_run_event, g) h
          | inr g ↦ rw (f, append_run_event, g) h
        ]
]

find_key-append_all :
    (r : Redaction) (more : List Append) (es : List RunEvent) (run_id : ℕ) (key : Text)
    (e : RunEvent)
    → find_key run_id (some key) es ≡ some e
    → find_key run_id (some key) (append_all r more es) ≡ some e
unfolding append_all
find_key-append_all r [] es run_id key e h = h
find_key-append_all r (a ∷ more) es run_id key e h =
    find_key-append_all r more (appended r a es).0 run_id key e
      (find_key-appended r a es run_id key e h)

answers :
    (r : Redaction) (b : Append) (es : List RunEvent) (key : Text) (e : RunEvent)
    → b.event_key ≡ some key
    → find_key b.run_id (some key) es ≡ some e
    → ((e.payload_hash ≡ r.digest b.event_type (r.redact b.payload))
        → (e.event_type ≡ b.event_type)
        → appended r b es ≡ (es, duplicate e))
      × (e.payload_hash ≢ r.digest b.event_type (r.redact b.payload)
          → appended r b es ≡ (es, conflicting key))
unfolding append_run_event
answers r b es key e keyed there =
    let found : find_key b.run_id b.event_key es ≡ some e =
      subst (λ k. find_key b.run_id k es ≡ some e) (sym keyed) there in
    (
      λ same kind.
          let test : (e.payload_hash == r.digest b.event_type (r.redact b.payload)
                && e.event_type == b.event_type)
              ≡ true =
            ground (
              arith,
              text_eq_iff e.payload_hash (r.digest b.event_type (r.redact b.payload)),
              text_eq_iff e.event_type b.event_type,
            ) in
          rw (found, append_run_event, test) refl,
      λ differ.
          let test : (e.payload_hash == r.digest b.event_type (r.redact b.payload)
                && e.event_type == b.event_type)
              ≡ false =
            ground
              (arith, text_eq_iff e.payload_hash (r.digest b.event_type (r.redact b.payload))) in
          rw (found, append_run_event, test) (ap (λ k. (es, conflicting (key_text k))) keyed),
    )

abbrev pub event_of : Redaction → Append → List RunEvent → RunEvent
event_of r a es = new_event r a.id a.run_id a.event_type a.payload a.event_key es

own_key :
    (r : Redaction) (a : Append) (es : List RunEvent) (key : Text)
    → a.event_key ≡ some key
    → has_key a.run_id key (event_of r a es) ≡ true
unfolding has_key new_event
own_key r a es key e =
    ground (arith, nat_eq_iff a.run_id a.run_id, option_eq_iff a.event_key (some key))

-- An event that was added under a new key is redelivered, with any appends in between: the same
-- type and payload are answered by the event that is there, a payload with another digest is a
-- conflict, and either way the history stays as it is.
pub append_run_event-redelivered :
    (r : Redaction) (a b : Append) (more : List Append) (es : List RunEvent) (key : Text)
    → a.event_key ≡ some key
    → b.event_key ≡ some key
    → b.run_id ≡ a.run_id
    → find_key a.run_id (some key) es ≡ none
    → let after = append_all r more (appended r a es).0 in
      (b.event_type ≡ a.event_type
        → b.payload ≡ a.payload
        → appended r b after ≡ (after, duplicate (event_of r a es)))
      × (r.digest a.event_type (r.redact a.payload) ≢ r.digest b.event_type (r.redact b.payload)
          → appended r b after ≡ (after, conflicting key))
unfolding append_run_event new_event
append_run_event-redelivered r a b more es key a_keyed b_keyed same_run fresh =
    let row : RunEvent = event_of r a es in
    let after : List RunEvent = append_all r more (appended r a es).0 in
    let absent : find_key a.run_id a.event_key es ≡ none =
      subst (λ k. find_key a.run_id k es ≡ none) (sym a_keyed) fresh in
    let inserted : find_key a.run_id (some key) (es ++ row ∷ []) ≡ some row =
      find-snoc (has_key a.run_id key) es row fresh (own_key r a es key a_keyed) in
    let first : find_key a.run_id (some key) (appended r a es).0 ≡ some row =
      rw (absent, append_run_event) inserted in
    let there : find_key b.run_id (some key) after ≡ some row =
      subst (λ i. find_key i (some key) after ≡ some row) (sym same_run)
        (find_key-append_all r more (appended r a es).0 a.run_id key row first) in
    let (again, conflict) = answers r b after key row b_keyed there in
    (
      λ kind payload.
          again
            (ap (λ t. r.digest t (r.redact a.payload)) (sym kind)
              ∙ ap (λ t. r.digest b.event_type (r.redact t)) (sym payload))
            (sym kind),
      conflict,
    )
