-- ===== src/Runtime/Orders.antt =====
-- OrderManager of src/atp/runtime/orders.py.
pub mod Invariant
pub mod Restarts
pub mod ExactlyOnce
pub mod Completion
use aitrading.Common.{ℕ, zero, suc, Bool, Option, none, some, String, if◌then◌else◌}
use aitrading.Common.Int.{ℤ, pos}
use aitrading.Runtime.Positions.{FillRow}
use aitrading.Runtime.OrderStore.{
  OrderState, OrderRow, Ack, Broker, Ledger, Failure, Outcome, Action, pure, reads,
  or_attribute_error, effect, ◌>>=◌, ◌>>◌, new_id, find_by_idempotency, get_order, put, put_key,
  PlaceRequest, is_some, intent_row, with_state, with_fill, or_default, zero_position,
  or_zero_position, is_handled, is_intent, is_authorized, returned, insert_order_intent,
  update_order_state, apply_fill_atomic, intent, authorized, rejected,
}

-- `fill(coid)`
unfoldable pub broker_fill : (b : Broker) → ℕ → Action b.State Ack
broker_fill b c =
    effect (λ w. let (ack, s) = b.submit c w.broker in (returned ack, record w { broker = s }))

module _ (b : Broker) (divide : ℤ → ℤ → ℤ) (r : PlaceRequest) (authorize : Bool × String) where
  abbrev pub fill_row : ℕ → ℕ → ℕ → Ack → FillRow
  fill_row c fid now ack = record {
    fill_id = fid;
    client_order_id = c;
    instrument = r.instrument;
    side = r.side;
    quantity = or_default ack.filled_qty r.quantity;
    price = ack.price;
    commission = or_default ack.commission (pos 0);
    ts = now;
  }

  -- Step 2 of `place`, and its last line.
  unfoldable pub submit_once : ℕ → OrderRow → Action b.State OrderRow
  unfolding broker_fill apply_fill_atomic
  submit_once c order =
      let submitting = do
        ack ← broker_fill b c
        fid ← new_id
        now ← reads (λ w. w.clock)
        apply_fill_atomic divide (fill_row c fid now ack) ack.broker_order_id
        get_order c
      in if is_authorized order.state then submitting else get_order c

  -- Step 1 of `place`, the veto of the risk engine, and what follows.
  unfoldable pub authorize_then_submit : ℕ → OrderRow → Action b.State OrderRow
  unfolding submit_once update_order_state
  authorize_then_submit c order =
      let approving = do
        update_order_state c authorized "risk approved"
        order' ← get_order c
        submit_once c order'
      in let rejecting = do update_order_state c rejected authorize.1; get_order c
        in if is_intent order.state
          then (if authorize.0 then approving else rejecting)
          else submit_once c order

  unfoldable pub begin : Option OrderRow → Action b.State OrderRow
  unfolding authorize_then_submit insert_order_intent
  begin none = do
    c ← new_id
    insert_order_intent r c
    order ← get_order c
    authorize_then_submit c order
  begin (some existing) =
      let resuming = do
        order ← get_order existing.client_order_id
        authorize_then_submit existing.client_order_id order
      in if is_handled existing.state then pure existing else resuming

  -- `OrderManager.place`
  unfoldable pub place : Action b.State OrderRow
  unfolding begin
  place = do existing ← reads (find_by_idempotency r.idempotency_key); begin existing
