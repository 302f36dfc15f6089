-- ===== src/Runtime/Durable/Races.antt =====
-- Transactions of several processes on the runtime rows, in any order: each is atomic, and the
-- arguments of a transition may rest on reads that are out of date.
use aitrading.Common.{
  Bool, true, false, List, [], ◌∷◌, Option, none, some, String, ◌≡◌, refl, arith, ◌⊎◌, inl,
}
use aitrading.Runtime.Status.{RuntimeStatus, value, same, risk_increasing}
use aitrading.Runtime.Durable.Canary.{
  PrepareRequest, DisableRequest, prepare_paper_runtime, disable_paper_runtime_if_no_active,
}
use aitrading.Runtime.Durable.{
  lost_compare_and_swap, Tables, World, Result, ok, raised, TransitionRequest, stored_status,
  kill_engaged, transition, audit, set_kill_switch, AuditEventRow,
}

pub data Transaction : Type 0 where
  transition_tx : TransitionRequest → Transaction
  audit_tx : (actor action : String) (reason previous new_state : Option String) → Transaction
  kill_tx : (engaged : Bool) (actor : String) (reason : Option String) → Transaction
  prepare_tx : PrepareRequest → Transaction
  disable_tx : DisableRequest → Transaction

-- The world after one transaction, committed or rolled back.
unfoldable pub commit : Transaction → World → World
commit (transition_tx r) w = (transition r w).1
commit (audit_tx actor action reason previous new_state) w =
    (audit actor action reason previous new_state w).1
commit (kill_tx engaged actor reason) w = (set_kill_switch engaged actor reason w).1
commit (prepare_tx r) w = (prepare_paper_runtime r w).1
commit (disable_tx r) w = (disable_paper_runtime_if_no_active r w).1

unfoldable pub commit_all : List Transaction → World → World
commit_all [] w = w
commit_all (t ∷ ts) w = commit_all ts (commit t w)

-- No transaction of the list takes the latch off.
abbrev pub KeepsLatch : List Transaction → Type 0
KeepsLatch [] = Unit
KeepsLatch (transition_tx _ ∷ ts) = KeepsLatch ts
KeepsLatch (audit_tx _ _ _ _ _ ∷ ts) = KeepsLatch ts
KeepsLatch (kill_tx engaged _ _ ∷ ts) = (engaged ≡ true) × KeepsLatch ts
KeepsLatch (prepare_tx _ ∷ ts) = KeepsLatch ts
KeepsLatch (disable_tx _ ∷ ts) = KeepsLatch ts

abbrev pub is_risk_increasing? : Option RuntimeStatus → Bool
is_risk_increasing? none = false
is_risk_increasing? (some st) = risk_increasing st

transition_latched :
    (r : TransitionRequest) (w : World)
    → kill_engaged w.db ≡ true
    → let w' = (transition r w).1 in
      (kill_engaged w'.db ≡ true)
      × ((stored_status w'.db ≡ stored_status w.db)
          ⊎ (is_risk_increasing? (stored_status w'.db) ≡ false))
unfolding transition
transition_latched r w k = ground arith

-- Under the latch neither transaction of the paper canary changes a row.
prepare_latched :
    (r : PrepareRequest) (w : World) → kill_engaged w.db ≡ true → (prepare_paper_runtime r w).1 ≡ w
unfolding prepare_paper_runtime
prepare_latched r w k = ground arith

disable_latched :
    (r : DisableRequest) (w : World)
    → kill_engaged w.db ≡ true
    → (disable_paper_runtime_if_no_active r w).1 ≡ w
unfolding disable_paper_runtime_if_no_active
disable_latched r w k = ground arith

-- The latch is on, and the status is as it was or increases no risk.
abbrev HoldsLatch : (before after : World) → Type 0
HoldsLatch w w' =
    (kill_engaged w'.db ≡ true)
    × ((stored_status w'.db ≡ stored_status w.db)
        ⊎ (is_risk_increasing? (stored_status w'.db) ≡ false))

-- A transaction that changed nothing may be left out.
without_first :
    (ts : List Transaction) (w w' : World)
    → w' ≡ w
    → HoldsLatch w (commit_all ts w)
    → HoldsLatch w (commit_all ts w')
without_first ts w w' e h = rw e h

-- Once the latch is on, no sequence of the transactions that write the status (`transition`, `prepare_paper_runtime`,
-- `disable_paper_runtime_if_no_active`), of audits and of switches of the latch that keep it on, moves the stored status
-- into READY_FOR_ARM, ARMED or RUNNING: the status ends as it was or increases no risk.
pub latched_never_advances :
    (ts : List Transaction) (w : World)
    → KeepsLatch ts
    → kill_engaged w.db ≡ true
    → let w' = commit_all ts w in
      (kill_engaged w'.db ≡ true)
      × ((stored_status w'.db ≡ stored_status w.db)
          ⊎ (is_risk_increasing? (stored_status w'.db) ≡ false))
unfolding commit_all commit audit set_kill_switch
latched_never_advances [] w keeps k = (k, inl refl)
latched_never_advances (transition_tx r ∷ ts) w keeps k =
    let (k', moved) = transition_latched r w k in
    ground (arith, latched_never_advances ts (transition r w).1 keeps k')
latched_never_advances (audit_tx a b c d e ∷ ts) w keeps k =
    latched_never_advances ts (audit a b c d e w).1 keeps k
latched_never_advances (kill_tx engaged a b ∷ ts) w keeps k =
    latched_never_advances ts (set_kill_switch engaged a b w).1 keeps.1 keeps.0
latched_never_advances (prepare_tx r ∷ ts) w keeps k =
    without_first ts w _ (prepare_latched r w k) (latched_never_advances ts w keeps k)
latched_never_advances (disable_tx r ∷ ts) w keeps k =
    without_first ts w _ (disable_latched r w k) (latched_never_advances ts w keeps k)

-- What one event of the audit log says of a transition.
abbrev Records : AuditEventRow → TransitionRequest → Tables → Type 0
Records e r t =
    (e.actor ≡ r.actor)
    × (e.new_state ≡ some (value r.new_status))
    × (e.previous_state ≡ elim (stored_status t) [ none ↦ none | some st ↦ some (value st) ])

-- What a transition may do: it commits the status with one event more in the audit log, which records the
-- status that it replaced, or it raises and every row is as it was.
abbrev pub Audited : TransitionRequest → Tables → Result AuditEventRow → Tables → Type 0
Audited r t (ok e) t' =
    (stored_status t' ≡ some r.new_status) × (t'.audit_events ≡ e ∷ t.audit_events) × Records e r t
Audited r t (raised _) t' = t' ≡ t

-- Every transition commits its status together with exactly one new audit event, which names the actor, the new
-- status and the status that it replaced, or it raises and leaves every row as it was.
pub transition-Audited :
    (r : TransitionRequest) (w : World)
    → let (result, w') = transition r w in Audited r w.db result w'.db
unfolding transition
transition-Audited r w = ground arith

-- A transition whose expected status is no longer the stored one raises: of two processes that read the
-- same status, the one that commits its move first leaves the other to lose its compare-and-swap.
pub transition_once :
    (first second : TransitionRequest) (st : RuntimeStatus) (w : World)
    → stored_status w.db ≡ some st
    → second.previous ≡ some st
    → same first.new_status st ≡ false
    → (e : AuditEventRow) → (transition first w).0 ≡ ok e
    → (transition second (transition first w).1).0
      ≡ raised (lost_compare_and_swap st (some first.new_status))
unfolding transition
transition_once first second st w s p moved e done = ground arith
