-- ===== src/Trading/Scheduler/Ticks.antt =====
-- `tick` of src/atp/execution/scheduler.py.
use aitrading.Common.{
  ℕ, ◌+◌, Bool, true, false, List, [], ◌∷◌, ◌++◌, Option, none, some, String, if◌then◌else◌,
}
use aitrading.Common.Dict.{Dict, lookup, insert}
use aitrading.Common.Floats.{Floats}
use aitrading.Trading.Broker.{market, Position, Account}
use aitrading.Trading.Execution.{ExecutionEngine, World, ExecutionResult, was_filled}
use aitrading.Trading.Execution.Submit.{Submission, submit_authorized}
use aitrading.Trading.Scheduler.{WorkingOrder, ExecutionScheduler, without}

module _ (fl : Floats) where
  -- What a tick is given: the account, the prices, the task, and the identities of the orders that it makes.
  pub record Tick : Type 0 where
    pub account : Account fl
    pub price_fn : String → Option fl.Float
    pub task : Option ℕ
    pub object_for : String → ℕ

  abbrev price_or : fl.Float → Option fl.Float → fl.Float
  price_or d none = d
  price_or d (some p) = if fl.equal p (fl.whole 0) then d else p

  abbrev quantity_or_zero : Option (Position fl) → fl.Float
  quantity_or_zero none = fl.whole 0
  quantity_or_zero (some p) = p.quantity

  abbrev pub child_of : Tick → String → WorkingOrder fl → (child_qty : fl.Float) → Submission fl
  child_of t key w q = record {
    order = record {
      object = t.object_for key;
      instrument = w.instrument;
      side = w.side;
      quantity = q;
      order_type = market;
      limit_price = none;
      stop_price = none;
      reduce_only = false;
      client_id = none;
    };
    account = t.account;
    price = price_or w.price_ref (t.price_fn key);
    current_qty = quantity_or_zero (lookup key t.account.positions);
    stop_distance = w.stop_distance;
    adv = w.adv;
    urgency = "normal";
    task = t.task;
  }

  -- The working orders after the first slice of one was released: shorter by it where it filled, else without it.
  abbrev pub advanced :
      String
      → WorkingOrder fl
      → (child_qty : fl.Float) → (slices : List fl.Float) → (filled : Bool) → Dict (WorkingOrder fl)
      → Dict (WorkingOrder fl)
  advanced key w q [] filled d = without fl key d
  advanced key w q (r ∷ rest) true d =
      insert key
        (record w {
          slices = r ∷ rest;
          released = w.released + 1;
          filled_qty = fl.plus w.filled_qty q;
        })
        d
  advanced key w q (r ∷ rest) false d = without fl key d

  -- The results with their contexts, the working orders and the world.
  pub record Progress : Type 0 where
    pub out : List (ExecutionResult fl × ℕ)
    pub working : Dict (WorkingOrder fl)
    pub world : World fl

  abbrev pub release :
      ExecutionEngine fl → Tick → String → WorkingOrder fl → List fl.Float → Progress → Progress
  release e t key w [] p = record p { working = without fl key p.working }
  release e t key w (q ∷ slices) p =
      let (r, world) = submit_authorized e (child_of t key w q) p.world in
      record {
        out = p.out ++ ((r, w.context) ∷ []);
        working = advanced key w q slices (was_filled r.result) p.working;
        world = world;
      }

  abbrev pub release_at :
      ExecutionEngine fl → Tick → String → Option (WorkingOrder fl) → Progress → Progress
  release_at e t key none p = p
  release_at e t key (some w) p = release e t key w w.slices p

  -- The loop over the keys that were there at the start.
  unfoldable pub tick_over : ExecutionEngine fl → Tick → List String → Progress → Progress
  tick_over e t [] p = p
  tick_over e t (key ∷ keys) p = tick_over e t keys (release_at e t key (lookup key p.working) p)

  abbrev pub keys_of : {A : Type 0} → Dict A → List String
  keys_of [] = []
  keys_of ((k, _) ∷ d) = k ∷ keys_of d

  -- `tick`
  unfoldable pub tick :
      ExecutionEngine fl
      → Tick
      → ExecutionScheduler fl
      → World fl
      → List (ExecutionResult fl × ℕ) × ExecutionScheduler fl × World fl
  unfolding tick_over
  tick e t s world =
      let p =
        tick_over e t (keys_of s.working)
          (record { out = []; working = s.working; world = world }) in
      (p.out, record s { working = p.working }, p.world)
