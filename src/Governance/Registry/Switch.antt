-- ===== src/Governance/Registry/Switch.antt =====
-- What a history of calls does to the switch of one strategy.
use text.Mathlib.Text.{◌==◌ as str_eq}
use text.Mathlib.TextEquality.{eq_iff}
use aitrading.Common.{
  ℕ, Bool, true, false, ◌||◌, not, List, [], ◌∷◌, Option, none, some, String, ◌≡◌, arith,
  Bool-cases, inl, inr, ◌⊎◌, ◌≢◌, ap, ◌∙◌, Option-cases,
}
use aitrading.Common.Dict.{lookup, lookup-insert_ne, lookup-insert_self}
use aitrading.Governance.Registry.{
  StrategyStatus, StrategyState, StrategyRegistry, suspended, register, is_active, suspend,
  set_probation, reactivate, is_active_status, ensure,
}

pub data RegistryCall : Type 0 where
  register_call : (name version : String) → StrategyStatus → (now : ℕ) → RegistryCall
  suspend_call : (name reason : String) (when : Option ℕ) (now : ℕ) → RegistryCall
  set_probation_call : (name reason : String) (when : Option ℕ) (now : ℕ) → RegistryCall
  reactivate_call :
      (name reason : String) (version : Option String) (when : Option ℕ) (now : ℕ) → RegistryCall

unfoldable pub called : RegistryCall → StrategyRegistry → StrategyRegistry
called (register_call name version status now) reg = register name version status now reg
called (suspend_call name reason when now) reg = suspend name reason when now reg
called (set_probation_call name reason when now) reg = set_probation name reason when now reg
called (reactivate_call name reason version when now) reg =
    reactivate name reason version when now reg

unfoldable pub called_all : List RegistryCall → StrategyRegistry → StrategyRegistry
called_all [] reg = reg
called_all (c ∷ calls) reg = called_all calls (called c reg)

-- The call reactivates the strategy or registers it anew.
abbrev pub restores : String → RegistryCall → Bool
restores name (register_call n _ _ _) = str_eq n name
restores name (reactivate_call n _ _ _ _) = str_eq n name
restores name _ = false

abbrev pub any_restores : String → List RegistryCall → Bool
any_restores name [] = false
any_restores name (c ∷ calls) = restores name c || any_restores name calls

abbrev pub status_row : Option StrategyState → Option StrategyStatus
status_row none = none
status_row (some s) = some s.status

abbrev pub status_in : String → StrategyRegistry → Option StrategyStatus
status_in name reg = status_row (lookup name reg)

names_differ : (n name : String) → not (str_eq n name) ≡ true → n ≢ name
names_differ n name h e = ground (arith, eq_iff n name)

-- The call is about another strategy.
abbrev pub elsewhere : String → RegistryCall → Bool
elsewhere name (register_call n _ _ _) = not (str_eq n name)
elsewhere name (suspend_call n _ _ _) = not (str_eq n name)
elsewhere name (set_probation_call n _ _ _) = not (str_eq n name)
elsewhere name (reactivate_call n _ _ _ _) = not (str_eq n name)

-- A call on one strategy leaves the state of every other strategy as it was, so that governance never turns
-- off a strategy that it was not asked about.
pub called-elsewhere :
    (name : String) (c : RegistryCall) (reg : StrategyRegistry)
    → elsewhere name c ≡ true
    → lookup name (called c reg) ≡ lookup name reg
unfolding called register suspend set_probation reactivate
called-elsewhere name (register_call n v st now) reg h =
    lookup-insert_ne n name _ reg (names_differ n name h)
called-elsewhere name (suspend_call n r when now) reg h =
    lookup-insert_ne n name _ reg (names_differ n name h)
called-elsewhere name (set_probation_call n r when now) reg h =
    elim (Bool-cases (is_active_status (ensure n now reg).status)) [
      | inl trades ↦ rw trades (lookup-insert_ne n name _ reg (names_differ n name h))
      | inr watched ↦ rw watched (lookup-insert_ne n name _ reg (names_differ n name h))
    ]
called-elsewhere name (reactivate_call n r v when now) reg h =
    lookup-insert_ne n name _ reg (names_differ n name h)

kept_off :
    (name reason : String) (when : Option ℕ) (now : ℕ) (reg : StrategyRegistry)
    → status_in name reg ≡ some suspended
    → status_in name (set_probation name reason when now reg) ≡ some suspended
unfolding set_probation
kept_off name reason when now reg s = elim (Option-cases (lookup name reg)) [
  | inl absent ↦ ground (arith, absent, s)
  | inr (state, e) ↦
      let st : state.status ≡ suspended = ground (arith, e, s) in
      rw e (rw st (ap status_row (lookup-insert_self name _ reg)))
]

is_elsewhere_or_here : (name : String) (n : String) → (n ≡ name) ⊎ (not (str_eq n name) ≡ true)
is_elsewhere_or_here name n = elim (Bool-cases (str_eq n name)) [
  | inl same ↦ inl ((eq_iff n name).0 same)
  | inr other ↦ inr (ap not other)
]

moved_elsewhere :
    (name : String) (c : RegistryCall) (reg : StrategyRegistry)
    → elsewhere name c ≡ true
    → status_in name reg ≡ some suspended
    → status_in name (called c reg) ≡ some suspended
moved_elsewhere name c reg h s = ap status_row (called-elsewhere name c reg h) ∙ s

called-suspended :
    (name : String) (c : RegistryCall) (reg : StrategyRegistry)
    → restores name c ≡ false
    → status_in name reg ≡ some suspended
    → status_in name (called c reg) ≡ some suspended
unfolding called register suspend set_probation reactivate
called-suspended name (register_call n v st now) reg h s =
    moved_elsewhere name (register_call n v st now) reg (ap not h) s
called-suspended name (suspend_call n r when now) reg h s = elim (is_elsewhere_or_here name n) [
  | inl same ↦ rw same (ap status_row (lookup-insert_self name _ reg))
  | inr other ↦ moved_elsewhere name (suspend_call n r when now) reg other s
]
called-suspended name (set_probation_call n r when now) reg h s =
    elim (is_elsewhere_or_here name n) [
      | inl same ↦ rw same (kept_off name r when now reg s)
      | inr other ↦ moved_elsewhere name (set_probation_call n r when now) reg other s
    ]
called-suspended name (reactivate_call n r v when now) reg h s =
    moved_elsewhere name (reactivate_call n r v when now) reg (ap not h) s

called_all-suspended :
    (name : String) (calls : List RegistryCall) (reg : StrategyRegistry)
    → any_restores name calls ≡ false
    → status_in name reg ≡ some suspended
    → status_in name (called_all calls reg) ≡ some suspended
unfolding called_all
called_all-suspended name [] reg h s = s
called_all-suspended name (c ∷ calls) reg h s =
    called_all-suspended name calls (called c reg) (ground arith)
      (called-suspended name c reg (ground arith) s)

-- A suspended strategy stays off: after `suspend`, over any calls on any strategies of which none
-- reactivates it or registers it anew, `is_active` answers false for it; putting it on probation does
-- not bring it back.
pub suspended_stays_off :
    (name reason : String) (when : Option ℕ) (now : ℕ) (calls : List RegistryCall)
    (reg : StrategyRegistry)
    → any_restores name calls ≡ false
    → is_active name (called_all calls (suspend name reason when now reg)) ≡ false
unfolding is_active suspend
suspended_stays_off name reason when now calls reg h =
    let off : status_in name (suspend name reason when now reg) ≡ some suspended =
      ap status_row (lookup-insert_self name _ reg) in
    ground (arith, called_all-suspended name calls (suspend name reason when now reg) h off)
