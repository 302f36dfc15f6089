-- ===== src/Governance/Versioning.antt =====
-- The lifecycle of a model and the ledger of promoted versions: src/atp/governance/versioning.py. A version is a
-- Python object that the ledger refers to and that `transition` writes to, so versions stand in a heap,
-- and the dictionaries hold references to them.
pub mod Lifecycle
pub mod Ledger
use aitrading.Common.{
  ℕ, zero, suc, Bool, true, false, ◌&&◌, ◌||◌, List, [], ◌∷◌, ◌++◌, Option, none, some, String,
  if◌then◌else◌, ◌==◌,
}
use text.Mathlib.Text.{◌==◌ as str_eq}
use aitrading.Common.Dict.{Dict, lookup, insert}

pub data ModelStatus : Type 0 where
  research testing paper approved live suspended retired : ModelStatus

-- What the module takes from Python: floating-point numbers with their comparisons and sum, and the
-- objects that a version only carries.
pub record Python : Type 1 where
  pub Float : Type 0
  pub Object : Type 0
  pub less : Float → Float → Bool
  pub less_or_equal : Float → Float → Bool
  pub plus : Float → Float → Float
  pub zero_float : Float
  pub minus_infinity : Float

pub record ModelVersion (py : Python) : Type 0 where
  pub strategy : String
  pub version : String
  pub params : py.Object
  pub metrics : Dict py.Float
  pub created_at : ℕ
  pub model_id : String
  pub status : ModelStatus
  pub training_dataset : String
  pub feature_set : List String
  pub training_date : Option ℕ
  pub deployment_date : Option ℕ
  pub validation_results : py.Object
  pub oos_results : py.Object
  pub paper_results : py.Object
  pub production_results : py.Object

-- `_ALLOWED`
unfoldable pub allowed : ModelStatus → ModelStatus → Bool
allowed research testing = true
allowed research retired = true
allowed testing paper = true
allowed testing research = true
allowed testing retired = true
allowed paper approved = true
allowed paper testing = true
allowed paper retired = true
allowed approved live = true
allowed approved paper = true
allowed approved retired = true
allowed live suspended = true
allowed live retired = true
allowed suspended live = true
allowed suspended retired = true
allowed _ _ = false

-- `ModelVersion.can_transition`
abbrev pub can_transition : {py : Python} → ModelVersion py → ModelStatus → Bool
can_transition v st = allowed v.status st

pub record PromotionPolicy (py : Python) : Type 0 where
  pub primary_metric : String
  pub min_improvement : py.Float
  pub require_positive : Bool

-- The heap of versions, and the two dictionaries of ModelRegistry.
pub record Models (py : Python) : Type 0 where
  pub objects : ℕ → ModelVersion py
  pub current : Dict ℕ
  pub lineage : Dict (List ℕ)

pub data Raised : Type 0 where
  -- ValueError, by what it says
  illegal_transition : (from to : ModelStatus) → Raised
  unknown_phase : String → Raised

pub data Answer (A : Type 0) : Type 0 where
  answer : A → Answer A
  raised : Raised → Answer A

abbrev pub set_object :
    {py : Python} → (ℕ → ModelVersion py) → ℕ → ModelVersion py → ℕ → ModelVersion py
set_object objects c v d = if c == d then v else objects d

abbrev pub deployed : ModelStatus → (now : ℕ) → Option ℕ → Option ℕ
deployed live now date = some now
deployed _ now date = date

-- `ModelRegistry.transition`
unfoldable pub transition :
    {py : Python} → (version : ℕ) → ModelStatus → (now : ℕ) → Models py → Answer ℕ × Models py
transition c st now m =
    let v = m.objects c in
    if can_transition v st
    then (
      answer c,
      record m {
        objects =
            set_object m.objects c
              (record v { status = st; deployment_date = deployed st now v.deployment_date });
      },
    )
    else (raised (illegal_transition v.status st), m)

abbrev pub with_results :
    {py : Python} → (phase : String) → py.Object → ModelVersion py → Option (ModelVersion py)
with_results phase results v =
    if str_eq phase "validation"
    then some (record v { validation_results = results })
    else if str_eq phase "oos"
    then some (record v { oos_results = results })
    else if str_eq phase "paper"
    then some (record v { paper_results = results })
    else if str_eq phase "production"
    then some (record v { production_results = results })
    else none

-- `ModelRegistry.attach_results`; the copy of the dictionary is the object itself here, which no one writes to.
unfoldable pub attach_results :
    {py : Python}
    → (version : ℕ) → (phase : String) → py.Object
    → Models py
    → Answer (Unit {0}) × Models py
attach_results c phase results m = elim (with_results phase results (m.objects c)) [
  | none ↦ (raised (unknown_phase phase), m)
  | some v ↦ (answer tt, record m { objects = set_object m.objects c v })
]

abbrev pub or_empty : Option (List ℕ) → List ℕ
or_empty none = []
or_empty (some l) = l

-- `lineage(strategy)`
abbrev pub lineage_of : {py : Python} → String → Models py → List ℕ
lineage_of strategy m = or_empty (lookup strategy m.lineage)

-- The version becomes the current one of its strategy and the last of its lineage.
abbrev pub adopt : {py : Python} → ℕ → Models py → Models py
adopt c m =
    let strategy = (m.objects c).strategy in
    record m {
      current = insert strategy c m.current;
      lineage = insert strategy (lineage_of strategy m ++ c ∷ []) m.lineage;
    }

-- `set_baseline`
unfoldable pub set_baseline : {py : Python} → (version : ℕ) → Models py → Models py
set_baseline c m = adopt c m

abbrev pub or_float : {A : Type 0} → A → Option A → A
or_float d none = d
or_float d (some x) = x

-- `_metric`
abbrev pub metric : {py : Python} → PromotionPolicy py → ModelVersion py → py.Float
metric {py} p v = or_float py.minus_infinity (lookup p.primary_metric v.metrics)

-- Why a promotion was granted or refused: what the text `reason` says.
pub data Reason : Type 0 where
  not_positive adopted_as_baseline improves does_not_beat : Reason

pub record PromotionResult : Type 0 where
  pub promoted : Bool
  pub reason : Reason
  pub active : ℕ

abbrev pub or_candidate : ℕ → Option ℕ → ℕ
or_candidate c none = c
or_candidate c (some d) = d

-- `cand_metric >= inc_metric + p.min_improvement and cand_metric > inc_metric`
abbrev pub beats : {py : Python} → PromotionPolicy py → ModelVersion py → ModelVersion py → Bool
beats {py} p candidate incumbent =
    py.less_or_equal (py.plus (metric p incumbent) p.min_improvement) (metric p candidate)
    && py.less (metric p incumbent) (metric p candidate)

abbrev pub is_refused : {py : Python} → PromotionPolicy py → ModelVersion py → Bool
is_refused {py} p v = p.require_positive && py.less_or_equal (metric p v) py.zero_float

-- `promote` of a candidate that is not refused, by the incumbent of its strategy.
unfoldable pub challenge :
    {py : Python}
    → PromotionPolicy py
    → (candidate : ℕ) → Option ℕ
    → Models py
    → PromotionResult × Models py
unfolding set_baseline
challenge p c none m =
    (record { promoted = true; reason = adopted_as_baseline; active = c }, set_baseline c m)
challenge p c (some d) m =
    if beats p (m.objects c) (m.objects d)
    then (record { promoted = true; reason = improves; active = c }, adopt c m)
    else (record { promoted = false; reason = does_not_beat; active = d }, m)

-- `promote`
unfoldable pub promote :
    {py : Python} → PromotionPolicy py → (candidate : ℕ) → Models py → PromotionResult × Models py
unfolding challenge
promote p c m =
    let incumbent = lookup (m.objects c).strategy m.current in
    if is_refused p (m.objects c)
    then (record { promoted = false; reason = not_positive; active = or_candidate c incumbent }, m)
    else challenge p c incumbent m

-- A list without its last element, and the last element.
unfoldable pub drop_last : List ℕ → List ℕ
drop_last [] = []
drop_last (x ∷ []) = []
drop_last (x ∷ y ∷ l) = x ∷ drop_last (y ∷ l)

unfoldable pub last : List ℕ → Option ℕ
last [] = none
last (x ∷ []) = some x
last (x ∷ y ∷ l) = last (y ∷ l)

-- The history without its current version, by the version that is then last: none if nothing is left.
unfoldable pub reverted :
    {py : Python} → String → List ℕ → Option ℕ → Models py → Option ℕ × Models py
reverted strategy rest none m = (none, m)
reverted strategy rest (some d) m = (
  some d,
  record m { current = insert strategy d m.current; lineage = insert strategy rest m.lineage },
)

-- `rollback`: with fewer than two versions nothing changes.
unfoldable pub rollback : {py : Python} → String → Models py → Option ℕ × Models py
unfolding reverted
rollback strategy m =
    let rest = drop_last (lineage_of strategy m) in reverted strategy rest (last rest) m
