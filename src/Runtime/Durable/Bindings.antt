-- ===== src/Runtime/Durable/Bindings.antt =====
-- The paper columns of the row `runtime_state` of src/atp/store/base.py, over any transactions that write its status. The
-- creation of a run writes the column of the run alone, which is not among those here.
use aitrading.Common.{true, List, [], ◌∷◌, Option, none, some, ◌≡◌, arith}
use aitrading.Runtime.Status.{forgets_binding}
use aitrading.Runtime.Durable.{
  World, TransitionRequest, RuntimeStateRow, PaperBinding, transition, audit, set_kill_switch,
}
use aitrading.Runtime.Durable.Canary.{
  PrepareRequest, DisableRequest, prepare_paper_runtime, disable_paper_runtime_if_no_active,
}
use aitrading.Runtime.Durable.Races.{
  Transaction, transition_tx, audit_tx, kill_tx, prepare_tx, disable_tx, commit, commit_all,
}

abbrev IsUnprepared : PaperBinding → Type 0
IsUnprepared b =
    (b.commit_sha ≡ none)
    × (b.config_checksum ≡ none)
    × (b.risk_config_checksum ≡ none)
    × (b.prepared_at ≡ none)

-- A row that is DISABLED, KILLED or RECOVERY_REQUIRED names no prepared commit, configuration or time.
abbrev pub Forgets : Option RuntimeStateRow → Type 0
Forgets none = Unit {0}
Forgets (some row) = forgets_binding row.status ≡ true → IsUnprepared row.binding

transition-Forgets :
    (r : TransitionRequest) (w : World)
    → Forgets w.db.runtime_state
    → Forgets (transition r w).1.db.runtime_state
unfolding transition
transition-Forgets r w h = ground arith

prepare-Forgets :
    (r : PrepareRequest) (w : World)
    → Forgets w.db.runtime_state
    → Forgets (prepare_paper_runtime r w).1.db.runtime_state
unfolding prepare_paper_runtime
prepare-Forgets r w h = ground arith

disable-Forgets :
    (r : DisableRequest) (w : World)
    → Forgets w.db.runtime_state
    → Forgets (disable_paper_runtime_if_no_active r w).1.db.runtime_state
unfolding disable_paper_runtime_if_no_active
disable-Forgets r w h = ground arith

-- Where a row that is DISABLED, KILLED or RECOVERY_REQUIRED names no prepared commit, configuration or time, this stays so
-- over any transitions, prepares, disables, audits and switches of the kill latch, refused ones included: none of
-- these statuses keeps what was prepared before.
pub binding_is_forgotten :
    (ts : List Transaction) (w : World)
    → Forgets w.db.runtime_state
    → Forgets (commit_all ts w).db.runtime_state
unfolding commit_all commit audit set_kill_switch
binding_is_forgotten [] w h = h
binding_is_forgotten (transition_tx r ∷ ts) w h =
    binding_is_forgotten ts (transition r w).1 (transition-Forgets r w h)
binding_is_forgotten (audit_tx a b c d e ∷ ts) w h = binding_is_forgotten ts (audit a b c d e w).1 h
binding_is_forgotten (kill_tx engaged a b ∷ ts) w h =
    binding_is_forgotten ts (set_kill_switch engaged a b w).1 h
binding_is_forgotten (prepare_tx r ∷ ts) w h =
    binding_is_forgotten ts (prepare_paper_runtime r w).1 (prepare-Forgets r w h)
binding_is_forgotten (disable_tx r ∷ ts) w h =
    binding_is_forgotten ts (disable_paper_runtime_if_no_active r w).1 (disable-Forgets r w h)
