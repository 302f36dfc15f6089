-- ===== src/Trading/Execution/Submit.antt =====
-- `submit` of src/atp/execution/engine.py, with `place_order` of src/atp/brokers/paper.py under the guard that the
-- engine has bound at the broker.
pub mod Controlled
pub mod Frames
pub mod Stopped
pub mod Transparent
use aitrading.Common.{
  ℕ, ◌+◌, Bool, true, false, not, ◌&&◌, List, [], ◌∷◌, Option, none, some, String, if◌then◌else◌,
  ◌==◌,
}
use aitrading.Common.Floats.{Floats}
use aitrading.Trading.Broker.{rejected, Order, OrderResult, Account}
use aitrading.Trading.Risk.{Proposal, RiskDecision, Reason, refused_by, veto}
use aitrading.Trading.Risk.Check.{check_order}
use aitrading.Trading.PaperBroker.{PaperBroker, get_account}
use aitrading.Trading.PaperBroker.Place.{place_order_locked, result_of}
use aitrading.Trading.Execution.{
  ExecutionEngine, SubmitLease, SendLease, Boundary, blocked, granted, unknown, World,
  ExecutionResult, conserves, canonical_paper_account, aggregate,
}

-- The arguments of `submit`, and the task that it runs in.
pub record Submission (fl : Floats) : Type 0 where
  pub order : Order fl
  pub account : Account fl
  pub price : fl.Float
  pub current_qty : fl.Float
  pub stop_distance : fl.Float
  pub adv : Option fl.Float
  pub urgency : String
  pub task : Option ℕ

abbrev pub same_task : Option ℕ → Option ℕ → Bool
same_task (some t) (some u) = t == u
same_task _ _ = false

module _ {fl : Floats} (e : ExecutionEngine fl) where
  abbrev pub is_send_authorized : Option ℕ → Order fl → Option SendLease → Bool
  is_send_authorized task o none = false
  is_send_authorized task o (some l) =
      not l.consumed
      && l.authority == e.authority.object
      && same_task l.task task
      && l.order == o.object

  abbrev pub consumed_send : Option SendLease → Option SendLease
  consumed_send none = none
  consumed_send (some l) = some (record l { consumed = true })

  abbrev changed : Option Reason
  changed = some (refused_by "paper execution authority changed")

  -- What the permit yields by the answer of the guard; `none` lets the send pass.
  abbrev pub refusal_of : Boundary → Option Reason
  refusal_of (blocked d) = some d.reason
  refusal_of (granted a) = if a == e.authority.object then none else changed
  refusal_of unknown = changed

  abbrev unauthorized : Option Reason
  unauthorized = some (refused_by "paper broker send is not risk-authorized")

  -- `_broker_send_permit`, by the guard that is bound
  unfoldable pub broker_send_permit :
      Option (ℕ → Boundary) → (task : Option ℕ) → Order fl → World fl → Option Reason × World fl
  broker_send_permit none task o w = (unauthorized, w)
  broker_send_permit (some guard) task o w =
      if is_send_authorized task o w.send_lease
      then (
        refusal_of (guard w.guard_calls),
        record w { send_lease = consumed_send w.send_lease; guard_calls = w.guard_calls + 1 },
      )
      else (unauthorized, w)

  abbrev pub place_locked : Order fl → World fl → OrderResult fl × World fl
  place_locked o w = let (r, b) = place_order_locked o w.broker in (r, record w { broker = b })

  abbrev pub place_permitted : Order fl → Option Reason → World fl → OrderResult fl × World fl
  place_permitted o none w = place_locked o w
  place_permitted o (some reason) w = (result_of o rejected (e.wording reason), w)

  -- `PaperBroker.place_order`, called in a task
  unfoldable pub place_order : (task : Option ℕ) → Order fl → World fl → OrderResult fl × World fl
  unfolding broker_send_permit
  place_order task o w =
      if not w.broker.connected
      then (result_of o rejected "paper broker disconnected", w)
      else if w.is_guarded
      then (let (refusal, w') = broker_send_permit e.order_guard task o w in
          place_permitted o refusal w')
      else place_locked o w

  abbrev pub lease_for : (task : Option ℕ) → Order fl → SendLease
  lease_for task o = record {
    authority = e.authority.object;
    task = task;
    order = o.object;
    consumed = false;
  }

  -- One child under a lease of its own.
  abbrev pub place_leased : (task : Option ℕ) → Order fl → World fl → OrderResult fl × World fl
  place_leased task o w =
      let (r, w') = place_order task o (record w { send_lease = some (lease_for task o) }) in
      (r, record w' { send_lease = w.send_lease })

  unfoldable pub place_children :
      (task : Option ℕ) → List (Order fl) → World fl → List (OrderResult fl) × World fl
  unfolding place_order
  place_children task [] w = ([], w)
  place_children task (o ∷ children) w =
      let (r, w') = place_leased task o w in
      let (rest, w'') = place_children task children w' in (r ∷ rest, w'')

  abbrev pub refuse : Order fl → RiskDecision → ExecutionResult fl
  refuse o d = record { order = o; decision = d; result = none }

  -- The children of an approved order.
  unfoldable pub send : RiskDecision → Submission fl → World fl → ExecutionResult fl × World fl
  unfolding place_children
  send d s w =
      let children = e.authority.plan s.order s.adv s.urgency in
      if conserves s.order children
      then (let (results, w') = place_children s.task children w in
          (record { order = s.order; decision = d; result = some (aggregate s.order results) }, w'))
      else (refuse s.order (veto (refused_by "invalid execution child plan")), w)

  abbrev pub proposal_of : Submission fl → Account fl → (current_qty : fl.Float) → Proposal fl
  proposal_of s a q = record {
    order = s.order;
    account = a;
    price = s.price;
    current_qty = q;
    stop_distance = s.stop_distance;
    correlation_fn = none;
  }

  -- The risk engine's veto on the parent order, and manual mode.
  unfoldable pub decide :
      Submission fl → Account fl × fl.Float → World fl → ExecutionResult fl × World fl
  unfolding send
  decide s (a, q) w =
      let d = check_order (proposal_of s a q) e.authority.risk in
      if not d.approved
      then (refuse s.order d, w)
      else if not e.authority.autonomous
      then (refuse s.order d, w)
      else send d s w

  abbrev pub decide_canonical :
      Submission fl → Option (Account fl × fl.Float) → World fl → ExecutionResult fl × World fl
  decide_canonical s none w =
      (refuse s.order (veto (refused_by "invalid canonical paper account")), w)
  decide_canonical s (some t) w = decide s t w

  abbrev pub decide_on :
      Submission fl → Option (Account fl) → World fl → ExecutionResult fl × World fl
  decide_on s none w = (refuse s.order (veto (refused_by "canonical paper account unavailable")), w)
  decide_on s (some a) w = decide_canonical s (canonical_paper_account s.order a) w

  abbrev pub within_boundary : Submission fl → Boundary → World fl → ExecutionResult fl × World fl
  within_boundary s (blocked d) w = (refuse s.order d, w)
  within_boundary s (granted a) w =
      if a == e.authority.object
      then decide_on s (get_account w.broker) w
      else (refuse s.order (veto (refused_by "paper execution authority is invalid")), w)
  within_boundary s unknown w =
      (refuse s.order (veto (refused_by "paper execution authority is invalid")), w)

  abbrev pub is_desk_authorized : Submission fl → Option SubmitLease → Bool
  is_desk_authorized s none = false
  is_desk_authorized s (some l) =
      not l.consumed && same_task l.task s.task && l.order == s.order.object

  abbrev pub consumed_submit : Option SubmitLease → Option SubmitLease
  consumed_submit none = none
  consumed_submit (some l) = some (record l { consumed = true })

  -- `submit` by the guard that is bound
  unfoldable pub submit_under :
      Option (ℕ → Boundary) → Submission fl → World fl → ExecutionResult fl × World fl
  unfolding decide
  submit_under none s w = decide s (s.account, s.current_qty) w
  submit_under (some guard) s w =
      if is_desk_authorized s w.submit_lease
      then within_boundary s (guard w.guard_calls) (record w {
        submit_lease = consumed_submit w.submit_lease;
        guard_calls = w.guard_calls + 1;
      })
      else (refuse s.order (veto (refused_by "paper execution submit is not desk-authorized")), w)

  -- `submit`
  unfoldable pub submit : Submission fl → World fl → ExecutionResult fl × World fl
  unfolding submit_under
  submit s w = submit_under e.order_guard s w

  -- `_authorize_submit` around a submission
  abbrev pub submit_authorized : Submission fl → World fl → ExecutionResult fl × World fl
  submit_authorized s w =
      let lease : SubmitLease = record {
        task = s.task;
        order = s.order.object;
        consumed = false;
      } in
      let (r, w') = submit s (record w { submit_lease = some lease }) in
      (r, record w' { submit_lease = w.submit_lease })
