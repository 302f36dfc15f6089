-- ===== src/Runtime/Positions/Replay.antt =====
-- What a replay of the durable fills yields: `reconstruct_positions` instrument by instrument, and the
-- realized P&L of an instrument that ends flat.
use text.Mathlib.Text.{◌==◌ as str_eq}
use text.Mathlib.TextEquality.{eq_iff}
use aitrading.Common.{
  ℕ, List, [], ◌∷◌, Option, none, some, String, ◌≡◌, refl, ◌∙◌, if◌then◌else◌, Bool-cases, inl, inr,
  ap,
}
use aitrading.Common.Int.{
  ℤ, pos, pos_part, neg_part, ◌+ℤ◌, ◌*ℤ◌, neg_ℤ, neg_ℤ_parts, int_laws, *ℤ-zero, *ℤ_parts, zero-+ℤ,
}
use aitrading.Common.Dict.{Dict, lookup, insert, lookup-insert}
use aitrading.Runtime.Positions.{
  FillRow, PositionRow, signed_quantity, quantity_of, average_of, realized_of,
  apply_fill_to_position, replay, reconstruct_positions,
}
use aitrading.Runtime.Positions.Accounting.{
  net_cost, paid, Exactly, apply_fill_to_position-net_cost,
}

module _ (divide : ℤ → ℤ → ℤ) (now : ℕ) where
  -- The fills of one instrument folded into its position, one after the other.
  pub fold_fills : Option PositionRow → List FillRow → Option PositionRow
  fold_fills p [] = p
  fold_fills p (f ∷ fills) = fold_fills (some (apply_fill_to_position divide now p f)) fills

  -- Every fill that opens or adds has a weighted average that comes out with no rounding.
  abbrev pub AllExactly : Option PositionRow → List FillRow → Type 0
  AllExactly p [] = Unit
  AllExactly p (f ∷ fills) =
      Exactly divide p f × AllExactly (some (apply_fill_to_position divide now p f)) fills

-- The fills of one instrument, in order.
abbrev pub fills_of : String → List FillRow → List FillRow
fills_of key [] = []
fills_of key (f ∷ fills) =
    if str_eq f.instrument key then f ∷ fills_of key fills else fills_of key fills

-- What the fills pay, prices and commissions together.
abbrev pub total_paid : List FillRow → ℤ
total_paid [] = pos 0
total_paid (f ∷ fills) = paid f +ℤ total_paid fills

-- The net signed quantity of the fills.
abbrev pub total_quantity : List FillRow → ℤ
total_quantity [] = pos 0
total_quantity (f ∷ fills) = signed_quantity f +ℤ total_quantity fills

module _ (divide : ℤ → ℤ → ℤ) (now : ℕ) where
  replay-lookup :
      (key : String) (fills : List FillRow) (out : Dict PositionRow)
      → lookup key (replay divide now out fills)
        ≡ fold_fills divide now (lookup key out) (fills_of key fills)
  unfolding replay fold_fills
  replay-lookup key [] out = refl
  replay-lookup key (f ∷ fills) out =
      let p = apply_fill_to_position divide now (lookup f.instrument out) f in
      let rest = replay-lookup key fills (insert f.instrument p out) in
      let placed = lookup-insert f.instrument key p out in
      elim (Bool-cases (str_eq f.instrument key)) [
        | inl here ↦
            let e : f.instrument ≡ key = (eq_iff f.instrument key).0 here in
            let found : lookup f.instrument out ≡ lookup key out = ap (λ k. lookup k out) e in
            rest ∙ (rw (placed, here) (rw found refl))
        | inr elsewhere ↦ rest ∙ (rw (placed, elsewhere) refl)
      ]

  -- The reconstruction of a mixed list of fills holds, for each instrument, the fold of the fills of that instrument
  -- alone: fills of other instruments do not touch it.
  pub reconstruct_positions-fold :
      (key : String) (fills : List FillRow)
      → lookup key (reconstruct_positions divide now fills)
        ≡ fold_fills divide now none (fills_of key fills)
  unfolding reconstruct_positions lookup
  reconstruct_positions-fold key fills = replay-lookup key fills []

  fold-net_cost :
      (p : Option PositionRow) (fills : List FillRow)
      → AllExactly divide now p fills
      → net_cost (fold_fills divide now p fills) ≡ net_cost p +ℤ total_paid fills
  unfolding fold_fills
  fold-net_cost p [] exact = omega int_laws
  fold-net_cost p (f ∷ fills) exact =
      let step = apply_fill_to_position-net_cost divide now p f exact.0 in
      fold-net_cost (some (apply_fill_to_position divide now p f)) fills exact.1
      ∙ (rw step (omega int_laws))

  fold-quantity :
      (p : Option PositionRow) (fills : List FillRow)
      → quantity_of (fold_fills divide now p fills) ≡ quantity_of p +ℤ total_quantity fills
  unfolding fold_fills apply_fill_to_position
  fold-quantity p [] = omega int_laws
  fold-quantity p (f ∷ fills) =
      fold-quantity (some (apply_fill_to_position divide now p f)) fills ∙ omega int_laws

  -- In the reconstruction the quantity of an instrument is the sum of the signed quantities of its fills.
  pub reconstruct_positions-quantity :
      (key : String) (fills : List FillRow)
      → quantity_of (lookup key (reconstruct_positions divide now fills))
        ≡ total_quantity (fills_of key fills)
  reconstruct_positions-quantity key fills =
      rw (reconstruct_positions-fold key fills)
        (fold-quantity none (fills_of key fills) ∙ omega int_laws)

  realized-flat :
      (p : Option PositionRow) (fills : List FillRow)
      → AllExactly divide now p fills
      → quantity_of p +ℤ total_quantity fills ≡ pos 0
      → net_cost p ≡ pos 0
      → realized_of (fold_fills divide now p fills) ≡ neg_ℤ (total_paid fills)
  realized-flat p fills exact flat start =
      let end = fold_fills divide now p fills in
      let cost = fold-net_cost p fills exact in
      let worthless : average_of end *ℤ quantity_of end ≡ pos 0 =
        ap (λ q. average_of end *ℤ q) (fold-quantity p fills ∙ flat) ∙ *ℤ-zero (average_of end) in
      omega (
        int_laws,
        neg_ℤ_parts (total_paid fills),
        ap pos_part cost,
        ap neg_part cost,
        ap pos_part worthless,
        ap neg_part worthless,
        ap pos_part start,
        ap neg_part start,
      )

  -- An instrument whose fills sum to nothing has realized exactly what it received less what it paid, commissions
  -- included, where no average of an opening fill was rounded.
  pub flat_realized :
      (key : String) (fills : List FillRow)
      → AllExactly divide now none (fills_of key fills)
      → total_quantity (fills_of key fills) ≡ pos 0
      → realized_of (lookup key (reconstruct_positions divide now fills))
        ≡ neg_ℤ (total_paid (fills_of key fills))
  flat_realized key fills exact flat = rw (reconstruct_positions-fold key fills) (
      realized-flat none (fills_of key fills) exact (zero-+ℤ _ ∙ flat)
        (omega (int_laws, *ℤ_parts (pos 0) (pos 0))))
