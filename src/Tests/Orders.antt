-- ===== src/Tests/Orders.antt =====
-- The order lifecycle of src/atp/runtime/orders.py at concrete runs, with a broker that counts.
use aitrading.Common.{
  ℕ, zero, ◌≤◌, Bool, true, List, [], ◌∷◌, none, some, String, ◌≡◌, ◌≢◌, refl, arith, if◌then◌else◌,
  ◌==◌,
}
use aitrading.Common.Int.{ℤ, pos}
use aitrading.Runtime.Positions.{buy}
use aitrading.Runtime.OrderStore.{
  OrderRow, filled, Broker, PlaceRequest, insert_order_intent, update_order_state,
  apply_fill_atomic,
}
use aitrading.Runtime.Orders.{place, begin, authorize_then_submit, submit_once, broker_fill}
use aitrading.Runtime.Orders.Invariant.{fills_for}
use aitrading.Runtime.Orders.Restarts.{place_all}
use aitrading.Runtime.Orders.ExactlyOnce.{
  opened, ended, executed_at_most_once, filled_exactly_once, one_order_per_key,
}
use aitrading.Runtime.Orders.Completion.{Completes, place_after_run-Completes}

counted_once : (s : ℕ → ℕ) (c : ℕ) → (if c == c then 1 else s c) ≡ 1
counted_once s c = ground arith

others_kept : (s : ℕ → ℕ) (c d : ℕ) → c ≢ d → (if c == d then 1 else s d) ≡ s d
others_kept s c d h = ground arith

-- A broker whose state is the number of executions of each order, never more than one.
abbrev counting : Broker
counting = record {
  State = ℕ → ℕ;
  submit = λ c s. (
    record { broker_order_id = "b1"; price = pos 100; commission = none; filled_qty = none },
    λ d. if c == d then 1 else s d,
  );
  executions = λ c s. s c;
  submit_first = λ c s h. counted_once s c;
  submit_again = λ c s h. counted_once s c;
  submit_other = λ c d s h. others_kept s c d h;
}

abbrev whole : ℤ → ℤ → ℤ
whole x y = x

abbrev buying : PlaceRequest
buying = record {
  idempotency_key = "k1";
  instrument = "AAA";
  side = buy;
  quantity = pos 10;
  order_type = "MARKET";
  correlation_id = "c1";
}

-- The process dies after the broker executed and before the fill is stored, then comes back twice.
abbrev crashing : List (PlaceRequest × (Bool × String) × ℕ)
crashing = (buying, (true, "ok"), 3) ∷ (buying, (true, "ok"), 4) ∷ (buying, (true, "ok"), 4) ∷ []

executed_at_most_once_example :
    let w = ended counting whole crashing (λ _. 0) 7 in
    (w.broker 0 ≤ 1) × (fills_for 0 w.fills ≤ w.broker 0)
executed_at_most_once_example =
    executed_at_most_once counting whole crashing (λ _. 0) 7 0 (λ d. refl)

abbrev done : OrderRow
done = record {
  client_order_id = 0;
  idempotency_key = "k1";
  instrument = "AAA";
  side = buy;
  quantity = pos 10;
  order_type = "MARKET";
  state = filled;
  broker_order_id = some "b1";
  correlation_id = "c1";
  reason = some "risk approved";
  created_at = 7;
  updated_at = 7;
}

crashing_fills : (ended counting whole crashing (λ _. 0) 7).orders 0 ≡ some done
unfolding place_all place begin authorize_then_submit submit_once broker_fill insert_order_intent
    update_order_state apply_fill_atomic opened
crashing_fills = refl

filled_exactly_once_example :
    let w = ended counting whole crashing (λ _. 0) 7 in (w.broker 0 ≡ 1) × (fills_for 0 w.fills ≡ 1)
filled_exactly_once_example =
    filled_exactly_once counting whole crashing (λ _. 0) 7 0 done (λ d. refl) crashing_fills refl

one_order_per_key_example : zero ≡ zero
one_order_per_key_example =
    one_order_per_key counting whole crashing (λ _. 0) 7 0 0 done done (λ d. refl) crashing_fills
      crashing_fills refl

place_after_run-Completes_example :
    Completes
      (place counting whole buying (true, "ok") 4 (ended counting whole crashing (λ _. 0) 7))
place_after_run-Completes_example =
    place_after_run-Completes counting whole crashing (λ _. 0) 7 4 buying (true, "ok") (λ d. refl)
      (ground arith)
