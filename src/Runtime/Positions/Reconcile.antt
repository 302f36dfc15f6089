-- ===== src/Runtime/Positions/Reconcile.antt =====
-- `reconcile` of src/atp/runtime/positions.py: the quantities of the database against the broker's.
use aitrading.Common.{
  Bool, true, false, List, [], ◌∷◌, Option, none, some, String, ◌≡◌, refl, arith, if◌then◌else◌,
  ◌↔◌,
}
use aitrading.Common.Int.{ℤ, pos, ◌-ℤ◌, ◌≤ℤ◌, ltb_ℤ, abs_ℤ}
use aitrading.Common.SortedKeys.{insert_keys, All, All-lookup, everywhere-All}
use aitrading.Common.Dict.{Dict, lookup}

abbrev pub or_zero : Option ℤ → ℤ
or_zero none = pos 0
or_zero (some q) = q

-- `positions.get(inst, 0)`
abbrev pub quantity_in : String → Dict ℤ → ℤ
quantity_in key book = or_zero (lookup key book)

-- `sorted(set(db_positions) | set(broker_positions))`
abbrev pub sorted_keys : Dict ℤ → Dict ℤ → List String
sorted_keys db broker = insert_keys db (insert_keys broker [])

module _ (tol : ℤ) (db broker : Dict ℤ) where
  -- The instrument's quantities differ by more than the tolerance.
  abbrev pub is_break : String → Bool
  is_break key = ltb_ℤ tol (abs_ℤ (quantity_in key db -ℤ quantity_in key broker))

  -- The loop over the instruments: instrument, quantity of the database, quantity of the broker.
  pub diffs_over : List String → List (String × ℤ × ℤ)
  diffs_over [] = []
  diffs_over (key ∷ keys) =
      let rest = diffs_over keys in
      if is_break key then (key, quantity_in key db, quantity_in key broker) ∷ rest else rest

pub record ReconResult : Type 0 where
  pub ok : Bool
  pub diffs : List (String × ℤ × ℤ)

abbrev is_empty : List (String × ℤ × ℤ) → Bool
is_empty [] = true
is_empty (_ ∷ _) = false

-- `reconcile`
pub reconcile : (tol : ℤ) → Dict ℤ → Dict ℤ → ReconResult
unfolding diffs_over
reconcile tol db broker =
    let diffs = diffs_over tol db broker (sorted_keys db broker) in
    record { ok = is_empty diffs; diffs = diffs }

module _ (tol : ℤ) (db broker : Dict ℤ) where
  abbrev Agrees : String → Type 0
  Agrees key = is_break tol db broker key ≡ false

  diffs_over-empty :
      (keys : List String) → (is_empty (diffs_over tol db broker keys) ≡ true) ↔ All Agrees keys
  unfolding diffs_over
  diffs_over-empty [] = ((λ _. tt), (λ _. refl))
  diffs_over-empty (key ∷ keys) = ground (arith, diffs_over-empty keys)

  zero_less_zero : pos 0 -ℤ pos 0 ≡ pos 0
  unfolding ◌-ℤ◌
  zero_less_zero = refl

  sorted_keys-Agrees :
      (key : String)
      → pos 0 ≤ℤ tol
      → All Agrees (sorted_keys db broker)
      → (d b : Option ℤ) → lookup key db ≡ d
      → lookup key broker ≡ b
      → Agrees key
  sorted_keys-Agrees key z h (some d) b ed eb =
      (All-lookup Agrees key d db (insert_keys broker []) h).0 ed
  sorted_keys-Agrees key z h none (some b) ed eb =
      let below = (All-lookup Agrees key (pos 0) db (insert_keys broker []) h).1 in
      (All-lookup Agrees key b broker [] below).0 eb
  sorted_keys-Agrees key z h none none ed eb = ground (arith, zero_less_zero)

  -- With a tolerance of at least zero the reconciliation is ok exactly when for every instrument whatever, whether held on
  -- one side, on both or on neither, the two quantities differ by no more than the tolerance.
  pub reconcile-ok_iff :
      pos 0 ≤ℤ tol
      → ((reconcile tol db broker).ok ≡ true)
        ↔ ((key : String) → is_break tol db broker key ≡ false)
  unfolding reconcile
  reconcile-ok_iff z = (
    (λ h key.
        sorted_keys-Agrees key z ((diffs_over-empty (sorted_keys db broker)).0 h) (lookup key db)
          (lookup key broker) refl refl),
    (λ h.
        (diffs_over-empty (sorted_keys db broker)).1
          (everywhere-All Agrees h (sorted_keys db broker))),
  )
