-- ===== src/Paper/Intents.antt =====
-- The intent of an order, once per identity: get_or_create_paper_intent of src/atp/store/base.py. The table of
-- orders is here the one of Orders; of the other tables the transaction reads the run and the risk checksum.
pub mod Once
use text.Mathlib.Text.{◌==◌ as str_eq}
use aitrading.Common.{
  ℕ, Bool, true, false, not, ◌||◌, ◌&&◌, Option, none, some, String, List, [], ◌∷◌, ◌++◌, ◌≡◌, refl,
  sym, ap, ◌∙◌, subst, if◌then◌else◌, ◌==◌,
}
use aitrading.Common.Int.{ℤ, ltb_ℤ, eqb_ℤ}
use aitrading.Common.Dict.{Dict}
use aitrading.Runtime.Positions.{Side}
use aitrading.Paper.Orders.{
  PaperOrderRow, PaperStore, EventHash, intent, append_order_event, is_event_taken, is_empty_text,
}
use aitrading.Paper.Runs.{PaperRunRow}
use aitrading.Paper.Money.{
  Result, ok, failed, Fault, value_error, state_error, safety_error, conflict, integrity_error,
  ◌>>=◌, ◌>>◌, raise_if, or_fail, is_empty, positive_amount,
}
use aitrading.Paper.Config.{Codec, PaperConfig}
use aitrading.Paper.Tables.{Stamp, same_side}
use aitrading.Paper.Fill.Request.{any_empty, side_of, timestamp}
use aitrading.Paper.Fill.Admit.{is_active_run, bound_config}

pub record IntentRequest : Type 0 where
  pub run_id : String
  pub idempotency_key : String
  pub decision_id : String
  pub instrument : String
  pub side : String
  pub quantity : Option ℤ
  pub quote_bid : Option ℤ
  pub quote_ask : Option ℤ
  pub quote_ts : Stamp
  pub risk_config_checksum : String
  pub correlation_id : Option String
  pub client_order_id : Option String
  pub order_type : String

-- The arguments, checked.
pub record IntentTerms : Type 0 where
  pub client_order_id : String
  pub run_id : String
  pub idempotency_key : String
  pub decision_id : String
  pub instrument : String
  pub side : Side
  pub quantity : ℤ
  pub order_type : String
  pub quote_bid : ℤ
  pub quote_ask : ℤ
  pub quote_ts : ℕ
  pub risk_config_checksum : String
  pub correlation_id : Option String

-- What the code takes from elsewhere: the codec of the configuration, the hashes of an identity, of a request
-- with the checksum of its configuration, and of an event.
pub record IntentExtern : Type 0 where
  pub codec : Codec
  pub order_hash : (run_id idempotency_key : String) → String
  pub request_hash : IntentTerms → (config_checksum : String) → String
  pub event_hash : EventHash

-- What the transaction reads: the run, and `_paper_risk_checksum_in_tx`.
pub record IntentView : Type 0 where
  pub runs : String → Option PaperRunRow
  pub risk : Result String

-- `client_order_id or hash`
abbrev pub order_id_of : IntentExtern → IntentRequest → Option String → String
order_id_of x q none = x.order_hash q.run_id q.idempotency_key
order_id_of x q (some id) = if is_empty id then x.order_hash q.run_id q.idempotency_key else id

-- The checks before the transaction.
unfoldable pub checked_intent : IntentExtern → IntentRequest → Result IntentTerms
checked_intent x q = do
  raise_if
      (any_empty (
        q.run_id ∷ q.idempotency_key ∷ q.decision_id ∷ q.instrument ∷ q.side
        ∷ q.risk_config_checksum ∷ []))
      (value_error "paper intent identity fields must be non-empty strings")
  raise_if (is_empty_text q.correlation_id)
      (value_error "correlation_id must be None or a non-empty string")
  side ← side_of q.side
  raise_if (not (str_eq q.order_type "MARKET"))
      (value_error "Paper Canary supports BUY/SELL MARKET orders only")
  qty ← positive_amount q.quantity
  bid ← positive_amount q.quote_bid
  ask ← positive_amount q.quote_ask
  raise_if (ltb_ℤ ask bid) (value_error "quote_ask must be greater than or equal to quote_bid")
  quote_time ← timestamp q.quote_ts (value_error "quote_ts must be a UTC ISO-8601 timestamp")
  raise_if (is_empty (order_id_of x q q.client_order_id))
      (value_error "client_order_id must be a non-empty string")
  ok (record {
    client_order_id = order_id_of x q q.client_order_id;
    run_id = q.run_id;
    idempotency_key = q.idempotency_key;
    decision_id = q.decision_id;
    instrument = q.instrument;
    side = side;
    quantity = qty;
    order_type = q.order_type;
    quote_bid = bid;
    quote_ask = ask;
    quote_ts = quote_time;
    risk_config_checksum = q.risk_config_checksum;
    correlation_id = q.correlation_id;
  })

-- The run is the active one, with its configuration and its risk configuration unaltered.
unfoldable pub admit_intent : IntentExtern → IntentView → IntentTerms → Result PaperRunRow
unfolding bound_config
admit_intent x view t = do
  run ← or_fail (view.runs t.run_id) (state_error "Paper Canary run does not exist")
  raise_if (not (is_active_run run)) (state_error "Paper Canary run is not active RUNNING")
  _ ← bound_config x.codec t.instrument run
  current ← view.risk
  raise_if
      (not (str_eq t.risk_config_checksum run.risk_config_checksum)
        || not (str_eq current run.risk_config_checksum))
      (safety_error "risk configuration token does not match the run snapshot")
  ok run

-- `client_order_id=? OR idempotency_key=? OR (run_id=? AND decision_id=?)`: the three unique keys.
abbrev pub identified : IntentTerms → PaperOrderRow → Bool
identified t o =
    str_eq o.client_order_id t.client_order_id
    || str_eq o.idempotency_key t.idempotency_key
    || str_eq o.run_id t.run_id && str_eq o.decision_id t.decision_id

unfoldable pub matches : IntentTerms → Dict PaperOrderRow → List PaperOrderRow
matches t [] = []
matches t ((k, o) ∷ orders) = if identified t o then o ∷ matches t orders else matches t orders

abbrev pub new_intent : IntentTerms → (checksum : String) (now : ℕ) → PaperOrderRow
new_intent t checksum now = record {
  client_order_id = t.client_order_id;
  run_id = t.run_id;
  idempotency_key = t.idempotency_key;
  decision_id = t.decision_id;
  instrument = t.instrument;
  side = t.side;
  quantity = t.quantity;
  order_type = t.order_type;
  state = intent;
  request_checksum = checksum;
  risk_config_checksum = t.risk_config_checksum;
  quote_bid = t.quote_bid;
  quote_ask = t.quote_ask;
  quote_ts = t.quote_ts;
  broker_order_id = none;
  reason = none;
  version = 0;
  correlation_id = t.correlation_id;
  created_at = now;
  authorized_at = none;
  terminal_at = none;
  updated_at = now;
}

-- `INSERT ... ON CONFLICT DO NOTHING`, with the event of a row that is inserted.
unfoldable pub insert_intent :
    EventHash
    → IntentTerms
    → (checksum : String) (now : ℕ) → List PaperOrderRow
    → PaperStore
    → PaperStore
unfolding append_order_event
insert_intent hash t checksum now (_ ∷ _) s = s
insert_intent hash t checksum now [] s = record s {
  orders = s.orders ++ (t.client_order_id, new_intent t checksum now) ∷ [];
  events = append_order_event hash t.client_order_id intent none (some intent) none now s.events;
}

abbrev pub same_text_option : Option String → Option String → Bool
same_text_option none none = true
same_text_option (some a) (some b) = str_eq a b
same_text_option _ _ = false

-- The order is the one of the request.
abbrev pub is_expected : IntentTerms → (checksum : String) → PaperOrderRow → Bool
is_expected t checksum o =
    str_eq o.client_order_id t.client_order_id
    && str_eq o.run_id t.run_id
    && str_eq o.idempotency_key t.idempotency_key
    && str_eq o.decision_id t.decision_id
    && str_eq o.instrument t.instrument
    && same_side o.side t.side
    && eqb_ℤ o.quantity t.quantity
    && str_eq o.order_type t.order_type
    && str_eq o.request_checksum checksum
    && str_eq o.risk_config_checksum t.risk_config_checksum
    && eqb_ℤ o.quote_bid t.quote_bid
    && eqb_ℤ o.quote_ask t.quote_ask
    && o.quote_ts == t.quote_ts
    && same_text_option o.correlation_id t.correlation_id

-- The event of a row that is inserted is refused.
abbrev pub is_intent_refused : EventHash → IntentTerms → List PaperOrderRow → PaperStore → Bool
is_intent_refused hash t [] s = is_event_taken hash t.client_order_id intent s.events
is_intent_refused hash t (_ ∷ _) s = false

-- The one order that the identities resolve to.
unfoldable pub resolved :
    IntentTerms → (checksum : String) → List PaperOrderRow → Result PaperOrderRow
resolved t checksum (o ∷ []) = do
  raise_if (not (is_expected t checksum o))
      (conflict "idempotency key or decision was reused with another request")
  ok o
resolved t checksum _ = failed (conflict "intent identities resolve to conflicting durable orders")

-- `get_or_create_paper_intent`
unfoldable pub get_or_create_paper_intent :
    IntentExtern
    → IntentView
    → IntentRequest
    → (now : ℕ) → PaperStore
    → Result (PaperOrderRow × PaperStore)
unfolding checked_intent admit_intent insert_intent resolved matches
get_or_create_paper_intent x view q now s = do
  t ← checked_intent x q
  run ← admit_intent x view t
  let checksum = x.request_hash t run.config_checksum
  raise_if (is_intent_refused x.event_hash t (matches t s.orders) s) integrity_error
  let after = insert_intent x.event_hash t checksum now (matches t s.orders) s
  o ← resolved t checksum (matches t after.orders)
  ok (o, after)
