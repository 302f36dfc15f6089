-- ===== src/Trading/Scheduler.antt =====
-- ExecutionScheduler of src/atp/execution/scheduler.py: a parent order worked one slice at each tick, through
-- the execution engine.
pub mod Ticks
pub mod Drained
use text.Mathlib.Text.{◌==◌ as str_eq}
use aitrading.Common.{
  ℕ, zero, suc, ◌+◌, Bool, true, false, not, ◌&&◌, ◌||◌, List, [], ◌∷◌, ◌++◌, map, Option, none,
  some, String, if◌then◌else◌, ◌==◌,
}
use aitrading.Common.Dict.{Dict, lookup, insert}
use aitrading.Common.Floats.{Floats}
use aitrading.Trading.Broker.{Side, OrderType, market, Instrument, Order, Position, Account, sign}
use aitrading.Trading.Execution.{ExecutionEngine, SubmitLease, World, ExecutionResult, was_filled}
use aitrading.Trading.Execution.Submit.{Submission, same_task, submit_authorized}

pub record WorkingOrder (fl : Floats) : Type 0 where
  pub instrument : Instrument fl
  pub side : Side
  pub slices : List fl.Float
  pub price_ref : fl.Float
  pub stop_distance : fl.Float
  pub adv : Option fl.Float
  pub context : ℕ
  pub released : ℕ
  pub filled_qty : fl.Float

-- The scheduler, with the lease of the context and, where a work guard is bound, whether its boundary rejects.
pub record ExecutionScheduler (fl : Floats) : Type 0 where
  pub n_slices : ℕ
  pub profile : Option (List fl.Float)
  pub working : Dict (WorkingOrder fl)
  pub work_guard : Option Bool
  pub parent_lease : Option SubmitLease

module _ (fl : Floats) where
  abbrev is_positive : fl.Float → Bool
  is_positive x = fl.is_finite x && fl.less (fl.whole 0) x

  abbrev all_positive : List fl.Float → Bool
  all_positive [] = true
  all_positive (x ∷ xs) = is_positive x && all_positive xs

  -- `_valid_weights`
  abbrev pub valid_weights : List fl.Float → Bool
  valid_weights [] = false
  valid_weights (x ∷ xs) = all_positive (x ∷ xs)

  abbrev add_to_last : fl.Float → List fl.Float → List fl.Float
  add_to_last x [] = []
  add_to_last x (y ∷ []) = fl.plus y x ∷ []
  add_to_last x (y ∷ z ∷ ys) = y ∷ add_to_last x (z ∷ ys)

  abbrev above_dust : List fl.Float → List fl.Float
  above_dust [] = []
  above_dust (x ∷ xs) =
      let rest = above_dust xs in if fl.less (fl.decimal_place 9) x then x ∷ rest else rest

  -- `split_quantity` in whole units; nothing for the ValueError.
  unfoldable pub split_quantity : (quantity : fl.Float) → List fl.Float → Option (List fl.Float)
  split_quantity quantity weights =
      let total = fl.sum weights in
      let children = map (λ w. fl.floor (fl.over (fl.times quantity w) total)) weights in
      if not (is_positive quantity && valid_weights weights)
      then none
      else if fl.less_or_equal total (fl.whole 0)
      then some (quantity ∷ [])
      else some (above_dust (add_to_last (fl.minus quantity (fl.sum children)) children))

  abbrev pub repeated : ℕ → List fl.Float
  repeated zero = []
  repeated (suc n) = fl.whole 1 ∷ repeated n

  abbrev weights_of : ExecutionScheduler fl → List fl.Float
  weights_of s = elim s.profile [
    | none ↦ repeated s.n_slices
    | some [] ↦ repeated s.n_slices
    | some (w ∷ ws) ↦ w ∷ ws
  ]

  abbrev valid_profile : Option (List fl.Float) → Bool
  valid_profile none = true
  valid_profile (some ws) = valid_weights ws

  abbrev working_order :
      Order fl
      → (price stop_distance : fl.Float) → Option fl.Float
      → (context : ℕ) → List fl.Float
      → WorkingOrder fl
  working_order o price stop adv context children = record {
    instrument = o.instrument;
    side = o.side;
    slices = children;
    price_ref = price;
    stop_distance = stop;
    adv = adv;
    context = context;
    released = 0;
    filled_qty = fl.whole 0;
  }

  abbrev is_sum : Order fl → Option (List fl.Float) → Bool
  is_sum o none = false
  is_sum o (some []) = false
  is_sum o (some (x ∷ xs)) = fl.is_close (fl.sum (x ∷ xs)) o.quantity 12 9

  abbrev is_leased : (task : Option ℕ) → Order fl → Option SubmitLease → Bool
  is_leased task o none = false
  is_leased task o (some l) = not l.consumed && same_task l.task task && l.order == o.object

  abbrev consumed_lease : Option SubmitLease → Option SubmitLease
  consumed_lease none = none
  consumed_lease (some l) = some (record l { consumed = true })

  -- What is left of `submit_parent` inside the boundary: the answer and the scheduler.
  unfoldable pub schedule :
      Order fl
      → (price stop_distance : fl.Float) → Option fl.Float
      → (context : ℕ) → ExecutionScheduler fl
      → Bool × ExecutionScheduler fl
  unfolding split_quantity
  schedule o price stop adv context s =
      let children = split_quantity o.quantity (weights_of s) in
      if s.n_slices == 0 || not (valid_profile s.profile) || not (is_positive o.quantity)
      then (false, s)
      else if is_sum o children
      then (
        true,
        record s {
          working =
              insert o.instrument.key
                (working_order o price stop adv context (elim children [ none ↦ [] | some c ↦ c ]))
                s.working;
        },
      )
      else (false, s)

  -- `submit_parent`, called in a task
  unfoldable pub submit_parent :
      (task : Option ℕ)
      → Order fl
      → (price stop_distance : fl.Float) → Option fl.Float
      → (context : ℕ) → ExecutionScheduler fl
      → Bool × ExecutionScheduler fl
  unfolding schedule
  submit_parent task o price stop adv context s = elim s.work_guard [
    | none ↦ schedule o price stop adv context s
    | some is_rejecting ↦
        let s' = record s { parent_lease = consumed_lease s.parent_lease } in
        if not (is_leased task o s.parent_lease)
        then (false, s)
        else if is_rejecting
        then (false, s')
        else schedule o price stop adv context s'
  ]

  -- `d.pop(key, None)`
  abbrev pub without : {A : Type 0} → String → Dict A → Dict A
  without key [] = []
  without key ((k, v) ∷ d) =
      let rest = without key d in if str_eq k key then rest else (k, v) ∷ rest

  -- `cancel`
  abbrev pub cancel : String → ExecutionScheduler fl → ExecutionScheduler fl
  cancel key s = record s { working = without key s.working }

  -- `cancel_all`
  abbrev pub cancel_all : ExecutionScheduler fl → ExecutionScheduler fl
  cancel_all s = record s { working = [] }

  abbrev pub is_nonempty : {A : Type 0} → List A → Bool
  is_nonempty [] = false
  is_nonempty (_ ∷ _) = true

  -- `has_work`
  abbrev pub has_work : ExecutionScheduler fl → Bool
  has_work s = is_nonempty s.working
