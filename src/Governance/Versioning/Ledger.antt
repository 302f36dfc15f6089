-- ===== src/Governance/Versioning/Ledger.antt =====
-- The ledger of promoted versions: promotion and rollback of src/atp/governance/versioning.py.
use text.Mathlib.Text.{◌==◌ as str_eq}
use text.Mathlib.TextEquality.{eq_iff}
use aitrading.Common.{
  ◌&&◌, ℕ, Bool, true, false, List, [], ◌∷◌, ◌++◌, Option, none, some, String, ◌≡◌, ◌≢◌, refl, sym,
  ap, ◌∙◌, arith, if◌then◌else◌, Bool-cases, inl, inr, subst,
}
use aitrading.Common.Dict.{lookup, insert, lookup-insert_self, lookup-insert_ne}
use aitrading.Governance.Versioning.{
  Python, metric, Models, PromotionPolicy, PromotionResult, improves, not_positive, or_candidate,
  set_baseline, promote, challenge, rollback, reverted, drop_last, last, lineage_of, or_empty,
  adopt, beats, is_refused,
}

last-++ : (l : List ℕ) (x : ℕ) → last (l ++ x ∷ []) ≡ some x
unfolding last
last-++ [] x = refl
last-++ (y ∷ []) x = refl
last-++ (y ∷ z ∷ l) x = last-++ (z ∷ l) x

drop_last-++ : (l : List ℕ) (x : ℕ) → drop_last (l ++ x ∷ []) ≡ l
unfolding drop_last
drop_last-++ [] x = refl
drop_last-++ (y ∷ []) x = refl
drop_last-++ (y ∷ z ∷ l) x = ap (λ t. y ∷ t) (drop_last-++ (z ∷ l) x)

-- The current version of every strategy is the last of its lineage.
abbrev pub IsLedger : {py : Python} → Models py → Type 0
IsLedger m = (s : String) → lookup s m.current ≡ last (lineage_of s m)

pub data LedgerCall : Type 0 where
  baseline_call : (version : ℕ) → LedgerCall
  promote_call : (candidate : ℕ) → LedgerCall
  rollback_call : (strategy : String) → LedgerCall

unfoldable pub recorded : {py : Python} → PromotionPolicy py → LedgerCall → Models py → Models py
recorded p (baseline_call c) m = set_baseline c m
recorded p (promote_call c) m = (promote p c m).1
recorded p (rollback_call s) m = (rollback s m).1

unfoldable pub recorded_all :
    {py : Python} → PromotionPolicy py → List LedgerCall → Models py → Models py
recorded_all p [] m = m
recorded_all p (c ∷ calls) m = recorded_all p calls (recorded p c m)

-- Two dictionaries that are written under one key at once agree at every key.
written-IsLedger :
    {py : Python} (t : String) (c : ℕ) (l : List ℕ) (m : Models py)
    → IsLedger m
    → last l ≡ some c
    → IsLedger (record m { current = insert t c m.current; lineage = insert t l m.lineage })
written-IsLedger t c l m h e s = elim (Bool-cases (str_eq t s)) [
  | inl same ↦
      let k = (eq_iff t s).0 same in
      rw k (
        lookup-insert_self s c m.current
        ∙ sym e
        ∙ ap (λ x. last (or_empty x)) (sym (lookup-insert_self s l m.lineage)))
  | inr other ↦
      let ne : t ≢ s = λ k. ground (arith, eq_iff t s, k) in
      lookup-insert_ne t s c m.current ne
      ∙ h s
      ∙ ap (λ x. last (or_empty x)) (sym (lookup-insert_ne t s l m.lineage ne))
]

adopt-IsLedger : {py : Python} (c : ℕ) (m : Models py) → IsLedger m → IsLedger (adopt c m)
adopt-IsLedger c m h =
    let s = (m.objects c).strategy in
    written-IsLedger s c (lineage_of s m ++ c ∷ []) m h (last-++ (lineage_of s m) c)

reverted-IsLedger :
    {py : Python} (s : String) (rest : List ℕ) (found : Option ℕ) (m : Models py)
    → IsLedger m
    → last rest ≡ found
    → IsLedger (reverted s rest found m).1
unfolding reverted
reverted-IsLedger s rest none m h e = h
reverted-IsLedger s rest (some d) m h e = written-IsLedger s d rest m h e

challenge-IsLedger :
    {py : Python} (p : PromotionPolicy py) (c : ℕ) (found : Option ℕ) (m : Models py)
    → IsLedger m
    → IsLedger (challenge p c found m).1
unfolding challenge set_baseline
challenge-IsLedger p c none m h = adopt-IsLedger c m h
challenge-IsLedger p c (some d) m h = elim (Bool-cases (beats p (m.objects c) (m.objects d))) [
  | inl wins ↦ rw wins (adopt-IsLedger c m h)
  | inr loses ↦ rw loses h
]

either-IsLedger :
    {py : Python} (t : Bool) (x y : PromotionResult × Models py)
    → IsLedger x.1
    → IsLedger y.1
    → IsLedger (if t then x else y).1
either-IsLedger true x y h k = h
either-IsLedger false x y h k = k

promote-IsLedger :
    {py : Python} (p : PromotionPolicy py) (c : ℕ) (m : Models py)
    → IsLedger m
    → IsLedger (promote p c m).1
unfolding promote
promote-IsLedger p c m h =
    let incumbent = lookup (m.objects c).strategy m.current in
    let refusal : PromotionResult = record {
      promoted = false;
      reason = not_positive;
      active = or_candidate c incumbent;
    } in
    either-IsLedger (is_refused p (m.objects c)) (refusal, m) (challenge p c incumbent m) h
      (challenge-IsLedger p c incumbent m h)

recorded-IsLedger :
    {py : Python} (p : PromotionPolicy py) (call : LedgerCall) (m : Models py)
    → IsLedger m
    → IsLedger (recorded p call m)
unfolding recorded set_baseline rollback
recorded-IsLedger p (baseline_call c) m h = adopt-IsLedger c m h
recorded-IsLedger p (promote_call c) m h = promote-IsLedger p c m h
recorded-IsLedger p (rollback_call s) m h =
    reverted-IsLedger s (drop_last (lineage_of s m)) (last (drop_last (lineage_of s m))) m h refl

recorded_all-IsLedger :
    {py : Python} (p : PromotionPolicy py) (calls : List LedgerCall) (m : Models py)
    → IsLedger m
    → IsLedger (recorded_all p calls m)
unfolding recorded_all
recorded_all-IsLedger p [] m h = h
recorded_all-IsLedger p (call ∷ calls) m h =
    recorded_all-IsLedger p calls (recorded p call m) (recorded-IsLedger p call m h)

empty-IsLedger : {py : Python} (m : Models py) → m.current ≡ [] → m.lineage ≡ [] → IsLedger m
unfolding lookup last
empty-IsLedger m c l s = ap (lookup s) c ∙ ap (λ x. last (or_empty (lookup s x))) (sym l)

-- From an empty ledger, and over every history of baselines, promotions and rollbacks of any strategies, the
-- current version of each strategy is the last of its lineage.
pub current_is_last :
    {py : Python} (p : PromotionPolicy py) (calls : List LedgerCall) (m : Models py) (s : String)
    → m.current ≡ []
    → m.lineage ≡ []
    → let m' = recorded_all p calls m in lookup s m'.current ≡ last (lineage_of s m')
current_is_last p calls m s c l = recorded_all-IsLedger p calls m (empty-IsLedger m c l) s

-- What a rollback leaves of a strategy: the version it answers, the current one and the lineage.
abbrev Restores : {py : Python} → String → ℕ → List ℕ → Option ℕ × Models py → Type 0
Restores s d l x = (x.0 ≡ some d) × (lookup s x.1.current ≡ some d) × (lineage_of s x.1 ≡ l)

rollback-adopt :
    {py : Python} (c d : ℕ) (m : Models py)
    → let s = (m.objects c).strategy in
      last (lineage_of s m) ≡ some d → Restores s d (lineage_of s m) (rollback s (adopt c m))
unfolding rollback reverted
rollback-adopt c d m l =
    let s = (m.objects c).strategy in
    let old = lineage_of s m in
    let rest : drop_last (lineage_of s (adopt c m)) ≡ old =
      ap (λ x. drop_last (or_empty x)) (lookup-insert_self s (old ++ c ∷ []) m.lineage)
      ∙ drop_last-++ old c in
    subst (λ t. Restores s d old (reverted s t (last t) (adopt c m))) (sym rest)
      (subst (λ t. Restores s d old (reverted s old t (adopt c m))) (sym l)
        (refl, lookup-insert_self s d _, ap or_empty (lookup-insert_self s old _)))

challenge_improves :
    {py : Python} (p : PromotionPolicy py) (c : ℕ) (found : Option ℕ) (m : Models py)
    → (challenge p c found m).0.reason ≡ improves
    → (challenge p c found m).1 ≡ adopt c m
unfolding challenge set_baseline
challenge_improves p c none m r = refl
challenge_improves p c (some d) m r = elim (Bool-cases (beats p (m.objects c) (m.objects d))) [
  | inl wins ↦ rw wins refl
  | inr loses ↦ ground (arith, loses, r)
]

promote_improves :
    {py : Python} (p : PromotionPolicy py) (c : ℕ) (m : Models py)
    → (promote p c m).0.reason ≡ improves
    → (promote p c m).1 ≡ adopt c m
unfolding promote
promote_improves p c m r =
    let found = lookup (m.objects c).strategy m.current in
    ground (arith, challenge_improves p c found m, r)

-- A promotion that replaces the version d, the last of its lineage, is undone by a rollback of the strategy:
-- d is current again, and the lineage is what it was before the promotion.
pub rollback-promote :
    {py : Python} (p : PromotionPolicy py) (c d : ℕ) (m : Models py)
    → last (lineage_of (m.objects c).strategy m) ≡ some d
    → (promote p c m).0.reason ≡ improves
    → let s = (m.objects c).strategy in
      let (back, m') = rollback s (promote p c m).1 in
      (back ≡ some d) × (lookup s m'.current ≡ some d) × (lineage_of s m' ≡ lineage_of s m)
rollback-promote p c d m l r =
    let s = (m.objects c).strategy in
    subst (λ x. Restores s d (lineage_of s m) (rollback s x)) (sym (promote_improves p c m r))
      (rollback-adopt c d m l)

challenge-promoted :
    {py : Python} (p : PromotionPolicy py) (c : ℕ) (d : ℕ) (m : Models py)
    → (challenge p c (some d) m).0.promoted ≡ true
    → beats p (m.objects c) (m.objects d) ≡ true
unfolding challenge
challenge-promoted p c d m t = ground arith

-- A candidate that is promoted over an incumbent has a metric above the one of the incumbent, and where the
-- policy asks for a positive metric it is not at most zero.
pub promote-beats :
    {py : Python} (p : PromotionPolicy py) (c d : ℕ) (m : Models py)
    → lookup (m.objects c).strategy m.current ≡ some d
    → (promote p c m).0.promoted ≡ true
    → (py.less (metric p (m.objects d)) (metric p (m.objects c)) ≡ true)
      × ((p.require_positive && py.less_or_equal (metric p (m.objects c)) py.zero_float) ≡ false)
unfolding promote
promote-beats p c d m e t = elim (Bool-cases (is_refused p (m.objects c))) [
  | inl refused ↦ ground (arith, refused, t)
  | inr admitted ↦
      let won = challenge-promoted p c d m (ground (arith, admitted, t, e)) in
      (ground (arith, won), admitted)
]
