-- ===== src/Runs/Events.antt =====
-- The immutable history of a run (src/domain/run-service.ts, appendRunEvent). Redaction and the
-- digest of a payload are arguments.
use project_baracks.Prelude.{
  ℕ, ◌+◌, ◌==◌, Eq-ℕ, ltb, Text, Eq-Text, Bool, ◌&&◌, Option, none, some, option_eq, List, [], ◌∷◌,
  ◌++◌, keep, find, if◌then◌else◌,
}

pub record RunEvent : Type 0 where
  pub id : ℕ
  pub run_id : ℕ
  pub seq : ℕ
  pub event_type : Text
  pub event_key : Option Text
  pub payload_hash : Text
  pub payload_json : Text

-- The payload as it is stored, and the digest of a type with a payload.
pub record Redaction : Type 0 where
  pub redact : Text → Text
  pub digest : Text → Text → Text

pub data Appended : Type 0 where
  added : RunEvent → Appended
  duplicate : RunEvent → Appended
  conflicting : Text → Appended

unfoldable pub has_key : ℕ → Text → RunEvent → Bool
has_key run_id key e = e.run_id == run_id && option_eq e.event_key (some key)

abbrev pub find_key : ℕ → Option Text → List RunEvent → Option RunEvent
find_key run_id none es = none
find_key run_id (some key) es = find (has_key run_id key) es

-- The highest number of the run's events, 0 where it has none.
unfoldable pub last_seq : ℕ → List RunEvent → ℕ
last_seq run_id [] = 0
last_seq run_id (e ∷ es) =
    let rest = last_seq run_id es in if e.run_id == run_id && ltb rest e.seq then e.seq else rest

unfoldable pub new_event :
    Redaction
    → (id run_id : ℕ) → (event_type payload : Text) → Option Text
    → List RunEvent
    → RunEvent
new_event r id run_id event_type payload key es = record {
  id = id;
  run_id = run_id;
  seq = last_seq run_id es + 1;
  event_type = event_type;
  event_key = key;
  payload_hash = r.digest event_type (r.redact payload);
  payload_json = r.redact payload;
}

abbrev pub key_text : Option Text → Text
key_text none = []
key_text (some key) = key

unfoldable pub append_run_event :
    Redaction
    → (id run_id : ℕ) → (event_type payload : Text) → Option Text
    → List RunEvent
    → List RunEvent × Appended
append_run_event r id run_id event_type payload key es = elim (find_key run_id key es) [
  | some existing ↦
      if existing.payload_hash == r.digest event_type (r.redact payload)
        && existing.event_type == event_type
      then (es, duplicate existing)
      else (es, conflicting (key_text key))
  | none ↦ let row = new_event r id run_id event_type payload key es in (es ++ row ∷ [], added row)
]

unfoldable insert_by_seq : RunEvent → List RunEvent → List RunEvent
insert_by_seq e [] = e ∷ []
insert_by_seq e (f ∷ fs) =
    let rest = insert_by_seq e fs in if ltb f.seq e.seq then f ∷ rest else e ∷ f ∷ fs

unfoldable order_by_seq : List RunEvent → List RunEvent
order_by_seq [] = []
order_by_seq (e ∷ es) = insert_by_seq e (order_by_seq es)

unfoldable list_run_events : ℕ → List RunEvent → List RunEvent
list_run_events run_id es = order_by_seq (keep (λ e. e.run_id == run_id) es)
