-- ===== src/Paper/Orders.antt =====
-- The orders of the paper canary and their event log, of src/atp/store/base.py: the compare-and-swap of one
-- order's state, and the event that it appends in the same transaction.
pub mod Log
pub mod Final
use text.Mathlib.Text.{◌==◌ as str_eq}
use aitrading.Common.{
  ℕ, ◌+◌, Bool, true, false, ◌&&◌, ◌||◌, not, List, [], ◌∷◌, ◌++◌, Option, none, some, String,
  if◌then◌else◌, ◌==◌, ltb,
}
use aitrading.Common.Int.{ℤ}
use aitrading.Common.Dict.{Dict, lookup, insert}
use aitrading.Runtime.Positions.{Side}

pub data PaperState : Type 0 where
  intent authorized rejected cancelled filled : PaperState

pub record PaperOrderRow : Type 0 where
  pub client_order_id : String
  pub run_id : String
  pub idempotency_key : String
  pub decision_id : String
  pub instrument : String
  pub side : Side
  pub quantity : ℤ
  pub order_type : String
  pub state : PaperState
  pub request_checksum : String
  pub risk_config_checksum : String
  pub quote_bid : ℤ
  pub quote_ask : ℤ
  pub quote_ts : ℕ
  pub broker_order_id : Option String
  pub reason : Option String
  pub version : ℕ
  pub correlation_id : Option String
  pub created_at : ℕ
  pub authorized_at : Option ℕ
  pub terminal_at : Option ℕ
  pub updated_at : ℕ

pub record PaperEventRow : Type 0 where
  pub event_id : String
  pub client_order_id : String
  pub seq : ℕ
  pub ts : ℕ
  pub event_type : PaperState
  pub previous_state : Option PaperState
  pub new_state : Option PaperState
  pub reason : Option String

-- The tables: orders by primary key, and the events in the order of their insertion.
pub record PaperStore : Type 0 where
  pub orders : Dict PaperOrderRow
  pub events : List PaperEventRow

pub data PaperError : Type 0 where
  invalid_transition : (expected new : PaperState) → PaperError
  invalid_broker_order_id compare_and_swap_failed event_id_exists : PaperError

pub data PaperResult : Type 0 where
  moved : PaperOrderRow → PaperResult
  raised : PaperError → PaperResult

-- `_PAPER_ORDER_TRANSITIONS`
unfoldable pub allowed : PaperState → PaperState → Bool
allowed intent authorized = true
allowed intent rejected = true
allowed intent cancelled = true
allowed authorized rejected = true
allowed authorized cancelled = true
allowed _ _ = false

abbrev pub same_state : PaperState → PaperState → Bool
same_state intent intent = true
same_state authorized authorized = true
same_state rejected rejected = true
same_state cancelled cancelled = true
same_state filled filled = true
same_state _ _ = false

-- The events of one order.
abbrev pub log_of : String → List PaperEventRow → List PaperEventRow
log_of id [] = []
log_of id (e ∷ events) =
    if str_eq e.client_order_id id then e ∷ log_of id events else log_of id events

-- `MAX(seq)`, from a value.
abbrev pub max_seq : ℕ → List PaperEventRow → ℕ
max_seq n [] = n
max_seq n (e ∷ events) = max_seq (if ltb n e.seq then e.seq else n) events

-- The identifier of an event is a hash of the order, the number and the type.
abbrev pub EventHash : Type 0
EventHash = String → ℕ → PaperState → String

-- The next event of an order.
abbrev pub order_event :
    EventHash
    → (client_order_id : String) (event_type : PaperState) (previous new : Option PaperState)
      (reason : Option String) (now : ℕ)
    → List PaperEventRow
    → PaperEventRow
order_event hash id type previous new reason now events =
    let seq = max_seq 0 (log_of id events) + 1 in
    record {
      event_id = hash id seq type;
      client_order_id = id;
      seq = seq;
      ts = now;
      event_type = type;
      previous_state = previous;
      new_state = new;
      reason = reason;
    }

-- The primary key of the events: an event of the table has this identifier.
abbrev pub has_event_id : String → List PaperEventRow → Bool
has_event_id event_id [] = false
has_event_id event_id (e ∷ events) = str_eq e.event_id event_id || has_event_id event_id events

-- The INSERT of the next event of an order is refused, since its identifier is taken.
abbrev pub is_event_taken : EventHash → String → PaperState → List PaperEventRow → Bool
is_event_taken hash id type events =
    has_event_id (hash id (max_seq 0 (log_of id events) + 1) type) events

-- `_paper_append_order_event`, where the INSERT is not refused
unfoldable pub append_order_event :
    EventHash
    → (client_order_id : String) (event_type : PaperState) (previous new : Option PaperState)
      (reason : Option String) (now : ℕ)
    → List PaperEventRow
    → List PaperEventRow
append_order_event hash id type previous new reason now events =
    events ++ order_event hash id type previous new reason now events ∷ []

pub record TransitionRequest : Type 0 where
  pub client_order_id : String
  pub expected_status : PaperState
  pub expected_version : ℕ
  pub new_status : PaperState
  pub reason : Option String
  pub broker_order_id : Option String

abbrev pub is_empty_text : Option String → Bool
is_empty_text none = false
is_empty_text (some s) = str_eq s ""

-- `COALESCE(?,broker_order_id)`
abbrev pub coalesce : Option String → Option String → Option String
coalesce none old = old
coalesce (some s) old = some s

abbrev pub is_terminal : PaperState → Bool
is_terminal rejected = true
is_terminal cancelled = true
is_terminal _ = false

abbrev pub when_status : Bool → (now : ℕ) → Option ℕ → Option ℕ
when_status true now old = some now
when_status false now old = old

-- The row after the UPDATE.
abbrev pub updated : TransitionRequest → ℕ → PaperOrderRow → PaperOrderRow
updated r now o = record o {
  state = r.new_status;
  broker_order_id = coalesce r.broker_order_id o.broker_order_id;
  reason = r.reason;
  version = o.version + 1;
  authorized_at = when_status (same_state r.new_status authorized) now o.authorized_at;
  terminal_at = when_status (is_terminal r.new_status) now o.terminal_at;
  updated_at = now;
}

-- The tables after the UPDATE of a row and the INSERT of its event.
abbrev pub stepped :
    EventHash → TransitionRequest → (now : ℕ) → PaperOrderRow → PaperStore → PaperStore
stepped hash r now o s = record {
  orders = insert r.client_order_id (updated r now o) s.orders;
  events =
      append_order_event hash r.client_order_id r.new_status (some r.expected_status)
        (some r.new_status) r.reason now s.events;
}

-- The transaction: one row where identifier, state and version are the expected ones, or none.
unfoldable pub swapped :
    EventHash
    → TransitionRequest
    → (now : ℕ) → Option PaperOrderRow
    → PaperStore
    → PaperResult × PaperStore
unfolding append_order_event
swapped hash r now none s = (raised compare_and_swap_failed, s)
swapped hash r now (some o) s =
    if same_state o.state r.expected_status && (o.version == r.expected_version)
    then (if is_event_taken hash r.client_order_id r.new_status s.events
        then (raised event_id_exists, s)
        else (moved (updated r now o), stepped hash r now o s))
    else (raised compare_and_swap_failed, s)

-- `transition_paper_order`
unfoldable pub transition_paper_order :
    EventHash → TransitionRequest → (now : ℕ) → PaperStore → PaperResult × PaperStore
unfolding swapped
transition_paper_order hash r now s =
    if not (allowed r.expected_status r.new_status)
    then (raised (invalid_transition r.expected_status r.new_status), s)
    else if is_empty_text r.broker_order_id
    then (raised invalid_broker_order_id, s)
    else swapped hash r now (lookup r.client_order_id s.orders) s
