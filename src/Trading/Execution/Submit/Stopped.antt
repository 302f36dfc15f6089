-- ===== src/Trading/Execution/Submit/Stopped.antt =====
-- The kill switch of src/atp/risk/engine.py over everything that `submit` of src/atp/execution/engine.py and a direct
-- `place_order` of src/atp/brokers/paper.py may do.
use aitrading.Common.{
  ℕ, Bool, true, false, List, [], ◌∷◌, Option, none, some, String, ◌≡◌, refl, sym, ap, ◌∙◌, subst,
  inl, inr,
}
use aitrading.Common.Floats.{Floats}
use aitrading.Trading.Broker.{Order}
use aitrading.Trading.Risk.{RiskEngine, kill_switch}
use aitrading.Trading.Risk.Latch.{
  RiskCall, call, is_reset, has_none, call-killed, killed-check_order,
}
use aitrading.Trading.Execution.{ExecutionEngine, SubmitLease, Boundary, World}
use aitrading.Trading.Execution.Submit.{Submission, place_order, submit, submit_authorized}
use aitrading.Trading.Execution.Submit.Controlled.{submit-IsApproved}
use aitrading.Trading.Execution.Submit.Frames.{
  absurd_bool, both_true, submit-IsFramed, place_order-unleased,
}

-- Something that happens: a submission, with or without the desk's lease, an order placed directly at the broker, or
-- a call of the risk engine.
pub data Action (fl : Floats) : Type 0 where
  submit_action : (is_leased : Bool) → Submission fl → Action fl
  place_action : (task : Option ℕ) → Order fl → Action fl
  risk_action : RiskCall fl → Action fl

abbrev pub with_risk : {fl : Floats} → RiskEngine fl → ExecutionEngine fl → ExecutionEngine fl
with_risk r e = record e { authority = record e.authority { risk = r } }

abbrev pub engine_after : {fl : Floats} → Action fl → ExecutionEngine fl → ExecutionEngine fl
engine_after (risk_action c) e = with_risk (call c e.authority.risk) e
engine_after _ e = e

abbrev pub act : {fl : Floats} → Action fl → ExecutionEngine fl → World fl → World fl
act (submit_action true s) e w = (submit_authorized e s w).1
act (submit_action false s) e w = (submit e s w).1
act (place_action task o) e w = (place_order e task o w).1
act (risk_action c) e w = w

abbrev pub act_all : {fl : Floats} → List (Action fl) → ExecutionEngine fl → World fl → World fl
act_all [] e w = w
act_all (a ∷ actions) e w = act_all actions (engine_after a e) (act a e w)

abbrev pub is_reset_action : {fl : Floats} → Action fl → Bool
is_reset_action (risk_action c) = is_reset c
is_reset_action _ = false

-- The guard is bound on both sides, and no send is under way.
pub record IsBound {fl : Floats} (e : ExecutionEngine fl) (w : World fl) : Type 0 where
  pub guard : ℕ → Boundary
  pub guard_bound : e.order_guard ≡ some guard
  pub at_broker : w.is_guarded ≡ true
  pub idle : w.send_lease ≡ none

module _ {fl : Floats} where
  submit-killed :
      (e : ExecutionEngine fl) (s : Submission fl) (w : World fl)
      → IsBound e w
      → e.authority.risk.state.killed ≡ true
      → ((submit e s w).1.broker ≡ w.broker) × IsBound e (submit e s w).1
  submit-killed e s w i k =
      let f = submit-IsFramed e s w in
      (
        elim (submit-IsApproved e s i.guard w i.guard_bound) [
          | inl same ↦ same
          | inr a ↦ absurd_bool a.approved (killed-check_order _ e.authority.risk k)
        ],
        record {
          guard = i.guard;
          guard_bound = i.guard_bound;
          at_broker = f.guarded ∙ i.at_broker;
          idle = f.leased ∙ i.idle;
        },
      )

  act-killed :
      (a : Action fl) (e : ExecutionEngine fl) (w : World fl)
      → IsBound e w
      → e.authority.risk.state.killed ≡ true
      → ((act a e w).broker ≡ w.broker) × IsBound (engine_after a e) (act a e w)
  act-killed (submit_action true s) e w i k =
      let lease : SubmitLease = record {
        task = s.task;
        order = s.order.object;
        consumed = false;
      } in
      let (same, j) =
        submit-killed e s (record w { submit_lease = some lease })
          (record {
            guard = i.guard;
            guard_bound = i.guard_bound;
            at_broker = i.at_broker;
            idle = i.idle;
          })
          k in
      (
        same,
        record {
          guard = j.guard;
          guard_bound = j.guard_bound;
          at_broker = j.at_broker;
          idle = j.idle;
        },
      )
  act-killed (submit_action false s) e w i k = submit-killed e s w i k
  act-killed (place_action task o) e w i k =
      let same = place_order-unleased e task o w i.at_broker i.idle in
      (ap (λ (v : World fl). v.broker) same, subst (IsBound e) (sym same) i)
  act-killed (risk_action c) e w i k = (
    refl,
    record { guard = i.guard; guard_bound = i.guard_bound; at_broker = i.at_broker; idle = i.idle },
  )

  engine_after-killed :
      (a : Action fl) (e : ExecutionEngine fl)
      → is_reset_action a ≡ false
      → e.authority.risk.state.killed ≡ true
      → (engine_after a e).authority.risk.state.killed ≡ true
  engine_after-killed (submit_action _ s) e n k = k
  engine_after-killed (place_action task o) e n k = k
  engine_after-killed (risk_action c) e n k = call-killed c e.authority.risk n k

  stopped_from :
      (actions : List (Action fl)) (e : ExecutionEngine fl) (w : World fl)
      → has_none is_reset_action actions ≡ true
      → IsBound e w
      → e.authority.risk.state.killed ≡ true
      → (act_all actions e w).broker ≡ w.broker
  stopped_from [] e w n i k = refl
  stopped_from (a ∷ actions) e w n i k =
      let (same, j) = act-killed a e w i k in
      let (here, rest) = both_true _ _ n in
      stopped_from actions (engine_after a e) (act a e w) rest j (engine_after-killed a e here k)
      ∙ same

  -- Once the guard is bound at the engine and at the broker and no send is under way, after `kill_switch` and until
  -- `reset_kill` nothing changes the broker: no submission, with or without the desk's lease, no order placed directly
  -- at the broker, in whatever task, whatever the guard answers and whatever else is done to the risk engine.
  pub act_all-kill_switch :
      (reason : String) (actions : List (Action fl)) (e : ExecutionEngine fl) (w : World fl)
      → has_none is_reset_action actions ≡ true
      → IsBound e w
      → (act_all actions (with_risk (kill_switch reason e.authority.risk) e) w).broker ≡ w.broker
  unfolding kill_switch
  act_all-kill_switch reason actions e w n i =
      stopped_from actions (with_risk (kill_switch reason e.authority.risk) e) w n
        (record {
          guard = i.guard;
          guard_bound = i.guard_bound;
          at_broker = i.at_broker;
          idle = i.idle;
        })
        refl
