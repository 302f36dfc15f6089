-- ===== src/Paper/Cancel.antt =====
-- The bulk cancellation of a run's open orders: cancel_paper_nonterminal_orders of src/atp/store/base.py.
pub mod Listed
pub mod Drained
use text.Mathlib.Text.{◌==◌ as str_eq}
use aitrading.Common.{
  ℕ, Bool, true, false, not, ◌||◌, ◌&&◌, Option, none, some, String, List, [], ◌∷◌, if◌then◌else◌,
  ltb, ◌==◌,
}
use aitrading.Common.Dict.{Dict, lookup}
use aitrading.Paper.Orders.{
  PaperState, PaperOrderRow, PaperStore, PaperResult, moved, raised, EventHash, TransitionRequest,
  intent, authorized, cancelled, same_state, swapped, event_id_exists,
}
use aitrading.Paper.Runs.{
  PaperRunRow, RunStatus, recovery_required, stopped, failed as run_failed, same_status,
}
use aitrading.Paper.Money.{
  Result, ok, failed, Fault, value_error, state_error, safety_error, integrity_error, ◌>>=◌, ◌>>◌,
  raise_if, or_fail, is_empty,
}

-- `status in {"RECOVERY_REQUIRED", "STOPPED", "FAILED"}`
abbrev pub is_recovering : RunStatus → Bool
is_recovering status =
    same_status status recovery_required
    || same_status status stopped
    || same_status status run_failed

-- `state IN ('INTENT','AUTHORIZED')`
abbrev pub is_open : PaperState → Bool
is_open state = same_state state intent || same_state state authorized

-- `ORDER BY created_at,client_order_id`, where the order of texts is the database's.
abbrev pub is_before : (text_before : String → String → Bool) → PaperOrderRow → PaperOrderRow → Bool
is_before text_before o p =
    ltb o.created_at p.created_at
    || o.created_at == p.created_at && text_before o.client_order_id p.client_order_id

abbrev pub place_row :
    (text_before : String → String → Bool) → PaperOrderRow → List PaperOrderRow → List PaperOrderRow
place_row text_before o [] = o ∷ []
place_row text_before o (p ∷ rest) =
    if is_before text_before p o then p ∷ place_row text_before o rest else o ∷ p ∷ rest

-- The open orders of the run.
unfoldable pub open_orders :
    (text_before : String → String → Bool) (run_id : String)
    → Dict PaperOrderRow
    → List PaperOrderRow
open_orders text_before run_id [] = []
open_orders text_before run_id ((k, o) ∷ orders) =
    let rest = open_orders text_before run_id orders in
    if str_eq o.run_id run_id && is_open o.state then place_row text_before o rest else rest

abbrev pub cancellation : (reason : String) → PaperOrderRow → TransitionRequest
cancellation reason o = record {
  client_order_id = o.client_order_id;
  expected_status = o.state;
  expected_version = o.version;
  new_status = cancelled;
  reason = some reason;
  broker_order_id = none;
}

abbrev pub as_result : PaperResult × PaperStore → Result (PaperOrderRow × PaperStore)
as_result (moved o, s) = ok (o, s)
as_result (raised event_id_exists, s) = failed integrity_error
as_result (raised e, s) = failed (state_error "recovery order cancellation compare-and-swap failed")

-- One round of the loop: the UPDATE by identifier, state and version, and the event, whose INSERT fails where its
-- identifier is taken.
unfoldable pub cancel_one :
    EventHash
    → (reason : String) (now : ℕ) → PaperOrderRow
    → PaperStore
    → Result (PaperOrderRow × PaperStore)
unfolding swapped
cancel_one hash reason now o s =
    as_result (swapped hash (cancellation reason o) now (lookup o.client_order_id s.orders) s)

unfoldable pub cancel_each :
    EventHash
    → (reason : String) (now : ℕ) → List PaperOrderRow
    → PaperStore
    → Result (List PaperOrderRow × PaperStore)
unfolding cancel_one
cancel_each hash reason now [] s = ok ([], s)
cancel_each hash reason now (o ∷ orders) s = do
  (row, after) ← cancel_one hash reason now o s
  (rows, last) ← cancel_each hash reason now orders after
  ok (row ∷ rows, last)

-- `_paper_serialize_sqlite_write` finds no row of risk_config to write.
abbrev pub is_unserialized : (money_as_text has_risk_config : Bool) → Bool
is_unserialized money_as_text has_risk_config = money_as_text && not has_risk_config

-- `cancel_paper_nonterminal_orders`
unfoldable pub cancel_paper_nonterminal_orders :
    EventHash
    → (text_before : String → String → Bool) → (money_as_text has_risk_config : Bool)
    → (run_id reason : String) (now : ℕ) (runs : String → Option PaperRunRow) → PaperStore
    → Result (List PaperOrderRow × PaperStore)
unfolding cancel_each open_orders
cancel_paper_nonterminal_orders hash text_before money_as_text has_risk_config run_id reason now
      runs s =
    do
      raise_if (is_empty reason)
          (value_error "recovery cancellation reason must be a non-empty string")
      raise_if (is_unserialized money_as_text has_risk_config)
          (safety_error "canonical risk_config is missing")
      run ← or_fail (runs run_id) (state_error "Paper Canary run does not exist")
      raise_if (not (is_recovering run.status))
          (state_error "nonterminal orders may be bulk-cancelled only during recovery")
      cancel_each hash reason now (open_orders text_before run_id s.orders) s
