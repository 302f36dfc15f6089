-- ===== src/Tests/Execution.antt =====
-- The paper broker with 10,000 in cash and a quote of 49.00 to 50.00, and the engine with its guard bound, for a task
-- that buys ten shares.
use aitrading.Common.{
  ℕ, ◌≤◌, true, false, [], ◌∷◌, none, some, String, ◌≡◌, refl, ◌⊎◌, subst, inl, inr, Bool-cases,
  arith,
}
use text.Mathlib.Text.{◌==◌ as str_eq}
use aitrading.Common.Maybe.{some-injective}
use aitrading.Common.Dict.{lookup}
use aitrading.Common.Int.{pos}
use aitrading.Tests.FixedPoint.{fixed, cents}
use aitrading.Tests.Trading.{share, order_of, account, engine}
use aitrading.Trading.Broker.{buy, sell, Account}
use aitrading.Trading.Risk.{kill_switch, effective_capital}
use aitrading.Trading.Risk.Check.{check_order}
use aitrading.Trading.PaperBroker.{
  PaperBroker, get_account, exposure_over, get_positions, get_positions_over,
}
use aitrading.Trading.PaperBroker.Place.{place_order_locked}
use aitrading.Trading.PaperBroker.Replay.{
  place_call, disconnect_call, credit_cash_call, broker_calls, enter_all, books_of, IsSame,
  broker_calls-IsSame,
}
use aitrading.Trading.Execution.{
  ExecutionEngine, World, granted, canonical_paper_account, all_children,
}
use aitrading.Trading.Execution.Submit.{Submission, submit}
use aitrading.Trading.Execution.Submit.Controlled.{IsApproved, submit-IsApproved}
use aitrading.Trading.Execution.Submit.Stopped.{
  submit_action, place_action, act_all, with_risk, act_all-kill_switch,
}
use aitrading.Trading.Execution.Submit.Transparent.{
  unguarded, unguarded_world, asked_with, IsSameOutcome, submit-IsSameOutcome,
}
use aitrading.Trading.Scheduler.{WorkingOrder, ExecutionScheduler, has_work}
use aitrading.Trading.Scheduler.Ticks.{Tick}
use aitrading.Trading.Scheduler.Drained.{length, IsWithin, tick_all, tick_all-drained}

abbrev broker : PaperBroker fixed
broker = record {
  cash = cents 1_000_000;
  commission_per_unit = pos 5_000_000;
  min_commission = cents 100;
  slippage_bps = cents 100;
  impact_model = none;
  commission_model = none;
  slippage_model = none;
  positions = [];
  quotes =
      ("ACME:equity", record { instrument = share; bid = cents 4_900; ask = cents 5_000; ts = 7 })
      ∷ [];
  instruments = ("ACME:equity", share) ∷ [];
  liquidity = [];
  realized_pnl = pos 0;
  connected = true;
}

abbrev execution : ExecutionEngine fixed
execution = record {
  order_guard = some (λ _. granted 1);
  authority = record { object = 1; risk = engine; plan = λ o _ _. o ∷ []; autonomous = true };
  wording = λ _. "";
}

abbrev submission : Submission fixed
submission = record {
  order = order_of buy (cents 1_000);
  account = account;
  price = cents 5_000;
  current_qty = cents 0;
  stop_distance = cents 100;
  adv = none;
  urgency = "normal";
  task = some 4;
}

abbrev world : World fixed
world = record {
  broker = broker;
  is_guarded = true;
  submit_lease = some (record { task = some 4; order = 1; consumed = false });
  send_lease = none;
  guard_calls = 0;
}

broker_calls-IsSame_example :
    IsSame
      (broker_calls
        (place_call (order_of buy (cents 1_000))
          ∷ credit_cash_call (cents 500)
          ∷ disconnect_call
          ∷ place_call (order_of sell (cents 400))
          ∷ [])
        broker).1
      (enter_all
        (broker_calls
          (place_call (order_of buy (cents 1_000))
            ∷ credit_cash_call (cents 500)
            ∷ disconnect_call
            ∷ place_call (order_of sell (cents 400))
            ∷ [])
          broker).0
        (books_of broker))
broker_calls-IsSame_example =
    broker_calls-IsSame
      (place_call (order_of buy (cents 1_000))
        ∷ credit_cash_call (cents 500)
        ∷ disconnect_call
        ∷ place_call (order_of sell (cents 400))
        ∷ [])
      broker

-- Ten shares at 50.00 and one basis point, with the least commission of 1.00.
buys : (place_order_locked (order_of buy (cents 1_000)) broker).1.cash ≡ pos 9_498_950_000_000
unfolding place_order_locked lookup
buys = refl

sends : (submit execution submission world).1.broker.cash ≡ pos 9_498_950_000_000
unfolding submit get_account exposure_over get_positions get_positions_over canonical_paper_account
    check_order effective_capital lookup all_children place_order_locked
sends = refl

submit-IsApproved_example :
    ((submit execution submission world).1.broker ≡ broker) ⊎ IsApproved execution submission broker
submit-IsApproved_example = submit-IsApproved execution submission (λ _. granted 1) world refl

act_all-kill_switch_example :
    (act_all
      (submit_action true submission ∷ place_action (some 4) (order_of sell (cents 1_000)) ∷ [])
      (with_risk (kill_switch "operator" engine) execution)
      world).broker
    ≡ broker
act_all-kill_switch_example =
    act_all-kill_switch "operator"
      (submit_action true submission ∷ place_action (some 4) (order_of sell (cents 1_000)) ∷ [])
      execution world refl
      (record { guard = λ _. granted 1; guard_bound = refl; at_broker = refl; idle = refl })

abbrev shown : Account fixed
shown = record {
  cash = cents 1_000_000;
  equity = cents 1_000_000;
  realized_pnl = pos 0;
  unrealized_pnl = pos 0;
  gross_exposure = pos 0;
  net_exposure = pos 0;
  positions = [];
}

submit-IsSameOutcome_example :
    IsSameOutcome
      (submit execution submission world)
      (submit (unguarded execution) (asked_with shown (pos 0) submission) (unguarded_world world))
unfolding get_account exposure_over get_positions get_positions_over canonical_paper_account
submit-IsSameOutcome_example =
    submit-IsSameOutcome execution submission shown (pos 0) shown world
      (record {
        guard = λ _. granted 1;
        guard_bound = refl;
        granting = λ _. refl;
        current = 4;
        in_task = refl;
      })
      refl refl refl

abbrev tick_of : Tick fixed
tick_of = record {
  account = account;
  price_fn = λ _. some (cents 5_000);
  task = some 4;
  object_for = λ _. 9;
}

-- Two slices of five shares each.
abbrev scheduler : ExecutionScheduler fixed
scheduler = record {
  n_slices = 2;
  profile = none;
  working =
      (
        "ACME:equity",
        record {
          instrument = share;
          side = buy;
          slices = cents 500 ∷ cents 500 ∷ [];
          price_ref = cents 5_000;
          stop_distance = cents 100;
          adv = none;
          context = 0;
          released = 0;
          filled_qty = pos 0;
        },
      )
      ∷ [];
  work_guard = none;
  parent_lease = none;
}

one-IsWithin :
    (k : String) (v : WorkingOrder fixed) (n : ℕ)
    → length v.slices ≤ n
    → IsWithin fixed n ((k, v) ∷ [])
unfolding lookup
one-IsWithin k v n b key w h = elim (Bool-cases (str_eq k key)) [
  | inl y ↦ subst (λ (x : WorkingOrder fixed). length x.slices ≤ n) (some-injective (rw y at h)) b
  | inr m ↦ ground arith
]

scheduler-IsWithin : IsWithin fixed 2 scheduler.working
scheduler-IsWithin = one-IsWithin "ACME:equity" _ 2 (omega arith)

tick_all-drained_example :
    has_work fixed
      (tick_all fixed ((execution, tick_of) ∷ (execution, tick_of) ∷ []) scheduler world).0
    ≡ false
tick_all-drained_example =
    tick_all-drained fixed execution tick_of ((execution, tick_of) ∷ []) scheduler world
      scheduler-IsWithin
