-- ===== src/Governance/Registry.antt =====
-- StrategyRegistry of src/atp/governance/registry.py, the switch that the desk consults before it acts on
-- the signals of a strategy. The time that the code reads is an argument.
pub mod Switch
use aitrading.Common.{
  ℕ, Bool, true, false, List, [], ◌∷◌, Option, none, some, String, if◌then◌else◌,
}
use aitrading.Common.Dict.{Dict, lookup, insert}

pub data StrategyStatus : Type 0 where
  active probation suspended : StrategyStatus

pub record StrategyState : Type 0 where
  pub name : String
  pub version : String
  pub status : StrategyStatus
  pub reason : String
  pub since : ℕ

abbrev pub StrategyRegistry : Type 0
StrategyRegistry = Dict StrategyState

abbrev pub is_suspended : StrategyStatus → Bool
is_suspended suspended = true
is_suspended _ = false

abbrev pub is_active_status : StrategyStatus → Bool
is_active_status active = true
is_active_status _ = false

-- `StrategyState.tradable`
abbrev pub tradable : StrategyState → Bool
tradable s = if is_suspended s.status then false else true

-- `StrategyState(name=name)`
abbrev pub fresh_state : String → ℕ → StrategyState
fresh_state name now = record {
  name = name;
  version = "v0";
  status = active;
  reason = "";
  since = now;
}

abbrev pub or_fresh : String → ℕ → Option StrategyState → StrategyState
or_fresh name now none = fresh_state name now
or_fresh name now (some s) = s

-- `_ensure`: the state under the name, or a new one; each caller stores the state that it then writes.
abbrev pub ensure : String → ℕ → StrategyRegistry → StrategyState
ensure name now reg = or_fresh name now (lookup name reg)

-- `when or _now()`
abbrev pub or_now : Option ℕ → ℕ → ℕ
or_now none now = now
or_now (some t) now = t

unfoldable pub register :
    (name version : String) → StrategyStatus → (now : ℕ) → StrategyRegistry → StrategyRegistry
register name version status now reg =
    insert name
      (record { name = name; version = version; status = status; reason = ""; since = now }) reg

abbrev pub active_in : Option StrategyState → Bool
active_in none = true
active_in (some s) = tradable s

unfoldable pub is_active : (name : String) → StrategyRegistry → Bool
is_active name reg = active_in (lookup name reg)

unfoldable pub suspend :
    (name reason : String) (when : Option ℕ) (now : ℕ) → StrategyRegistry → StrategyRegistry
suspend name reason when now reg =
    insert name
      (record (ensure name now reg) {
        status = suspended;
        reason = reason;
        since = or_now when now;
      })
      reg

unfoldable pub set_probation :
    (name reason : String) (when : Option ℕ) (now : ℕ) → StrategyRegistry → StrategyRegistry
set_probation name reason when now reg =
    let state = ensure name now reg in
    if is_active_status state.status
    then insert name (record state { status = probation; reason = reason; since = or_now when now })
        reg
    else insert name state reg

abbrev pub or_version : Option String → String → String
or_version none v = v
or_version (some w) v = w

unfoldable pub reactivate :
    (name reason : String) (version : Option String) (when : Option ℕ) (now : ℕ)
    → StrategyRegistry
    → StrategyRegistry
reactivate name reason version when now reg =
    let state = ensure name now reg in
    insert name
      (record state {
        status = active;
        reason = reason;
        version = or_version version state.version;
        since = or_now when now;
      })
      reg

-- `states()`
abbrev pub states : StrategyRegistry → List StrategyState
states [] = []
states ((_, s) ∷ reg) = s ∷ states reg

abbrev names_of_suspended : List StrategyState → List String
names_of_suspended [] = []
names_of_suspended (s ∷ rest) =
    if is_suspended s.status then s.name ∷ names_of_suspended rest else names_of_suspended rest

-- `suspended()`
abbrev pub suspended_names : StrategyRegistry → List String
suspended_names reg = names_of_suspended (states reg)
