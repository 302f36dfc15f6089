-- ===== src/Tests/Paper.antt =====
-- The orders and runs of the paper canary, src/atp/store/base.py, at a concrete intent and run.
use text.Mathlib.TextEquality.{eq_iff}
use aitrading.Common.{
  arith, true, String, subst, ℕ, false, List, [], ◌∷◌, none, some, ◌≡◌, refl, Bool-cases, inl, inr,
}
use text.Mathlib.Text.{◌==◌ as str_eq}
use aitrading.Common.Int.{pos}
use aitrading.Paper.Runs.{PaperRunRow, RunRequest, ready_for_arm, running, completed, stopped}
use aitrading.Paper.Runs.Slot.{IsTimed, AreTimed}
use aitrading.Common.Dict.{Dict, lookup, insert}
use aitrading.Runtime.Positions.{buy}
use aitrading.Paper.Orders.{
  PaperState, intent, authorized, rejected, cancelled, PaperOrderRow, PaperStore, EventHash,
  TransitionRequest, log_of, allowed, swapped, transition_paper_order, append_order_event,
  is_event_taken, updated,
}
use aitrading.Paper.Orders.Log.{walk, Logged, IsLogged, transition_each, log_tells_state}
use aitrading.Paper.Money.{ok}
use aitrading.Paper.Cancel.{cancel_paper_nonterminal_orders}
use aitrading.Paper.Cancel.Listed.{IsKeyed, has_open}
use aitrading.Paper.Cancel.Drained.{HasRoom, cancel-drained}

abbrev first_run : PaperRunRow
first_run = record {
  run_id = "r1";
  status = ready_for_arm;
  active_slot = some 1;
  version = 1;
  config_json = "";
  config_checksum = "";
  risk_config_checksum = "";
  commit_sha = "";
  reason = none;
  created_at = 1;
  started_at = none;
  heartbeat_at = none;
  ended_at = none;
  updated_at = 1;
}

abbrev runs : Dict PaperRunRow
runs = ("r1", first_run) ∷ []

runs-AreTimed : AreTimed runs
unfolding IsTimed lookup
runs-AreTimed id = elim (Bool-cases (str_eq "r1" id)) [
  | inl same ↦ rw same (refl, refl, refl)
  | inr other ↦ rw other tt
]

abbrev run_requests : List (RunRequest × ℕ)
run_requests =
    (
      record {
        run_id = "r1";
        expected_status = ready_for_arm;
        expected_version = 1;
        new_status = running;
        reason = none;
      },
      2,
    )
    ∷ (
      record {
        run_id = "r1";
        expected_status = running;
        expected_version = 2;
        new_status = completed;
        reason = none;
      },
      3,
    )
    ∷ []

abbrev stopped_run : PaperRunRow
stopped_run = record first_run { status = stopped; active_slot = none }

abbrev paper_order : PaperState → PaperOrderRow
paper_order st = record {
  client_order_id = "o1";
  run_id = "r1";
  idempotency_key = "k1";
  decision_id = "d1";
  instrument = "AAA";
  side = buy;
  quantity = pos 10;
  order_type = "MARKET";
  state = st;
  request_checksum = "x";
  risk_config_checksum = "y";
  quote_bid = pos 99;
  quote_ask = pos 101;
  quote_ts = 5;
  broker_order_id = none;
  reason = none;
  version = 0;
  correlation_id = none;
  created_at = 1;
  authorized_at = none;
  terminal_at = none;
  updated_at = 1;
}

-- One intent, as it is created, with its event.
abbrev one_intent : PaperStore
one_intent = record {
  orders = ("o1", paper_order intent) ∷ [];
  events =
      (record {
        event_id = "e1";
        client_order_id = "o1";
        seq = 1;
        ts = 1;
        event_type = intent;
        previous_state = none;
        new_state = some intent;
        reason = none;
      })
      ∷ [];
}

one_intent-IsLogged : IsLogged one_intent
unfolding Logged lookup
one_intent-IsLogged id = elim (Bool-cases (str_eq "o1" id)) [
  | inl same ↦ rw same refl
  | inr other ↦ rw other refl
]

abbrev asked : PaperState → PaperState → ℕ → TransitionRequest
asked from to version = record {
  client_order_id = "o1";
  expected_status = from;
  expected_version = version;
  new_status = to;
  reason = none;
  broker_order_id = none;
}

abbrev hash : EventHash
hash id seq authorized = "e2"
hash id seq _ = "e3"

abbrev requests : List (TransitionRequest × ℕ)
requests =
    (asked intent authorized 0, 2)
    ∷ (asked intent rejected 0, 3)
    ∷ (asked authorized cancelled 1, 4)
    ∷ []

abbrev ended_order : PaperOrderRow
ended_order =
    updated (asked authorized cancelled 1) 4
      (updated (asked intent authorized 0) 2 (paper_order intent))

log_tells_state_example :
    walk none 0 (log_of "o1" (transition_each hash requests one_intent).events)
    ≡ some (some cancelled, 3)
unfolding transition_each transition_paper_order swapped append_order_event allowed lookup insert
log_tells_state_example =
    log_tells_state hash requests one_intent "o1" ended_order one_intent-IsLogged refl

abbrev one_rejected : PaperStore
one_rejected = record { orders = ("o1", paper_order rejected) ∷ []; events = [] }

abbrev first_id : EventHash
first_id id seq type = id

one_intent-IsKeyed : IsKeyed one_intent.orders
one_intent-IsKeyed = (refl, refl, tt)

one_intent-HasRoom : HasRoom first_id one_intent
unfolding lookup
one_intent-HasRoom o h =
    subst (λ id. is_event_taken first_id id cancelled one_intent.events ≡ false)
      (is_stored o.client_order_id h) refl
  where
    is_stored : {x : PaperOrderRow} (id : String) → lookup id one_intent.orders ≡ some x → "o1" ≡ id
    is_stored id h = ground (arith, eq_iff "o1" id)

cancel-drained_example :
    (rows : List PaperOrderRow) × (s' : PaperStore) × (cancel_paper_nonterminal_orders first_id
        str_eq true true "r1" "crash" 9
        (λ id. some stopped_run)
        one_intent
      ≡ ok (rows, s'))
    × (has_open "r1" s'.orders ≡ false)
cancel-drained_example =
    cancel-drained first_id str_eq true true "r1" "crash" 9 (λ id. some stopped_run) stopped_run
      one_intent (λ id j m n e. e) one_intent-HasRoom one_intent-IsKeyed refl refl refl refl
