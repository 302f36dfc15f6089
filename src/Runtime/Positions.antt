-- ===== src/Runtime/Positions.antt =====
-- Positions from fills: src/atp/runtime/positions.py. Quantities, prices and commissions are whole
-- numbers of units of 10^-8; a product of two, and with it the realized P&L, is a whole number of
-- units of 10^-16. Sums, differences and products are exact, as Decimal's are within its precision.
-- A quotient is rounded by Decimal, so the division is an argument.
pub mod Accounting
pub mod Replay
pub mod Reconcile
use aitrading.Common.{
  ℕ, Bool, true, false, ◌&&◌, ◌||◌, List, [], ◌∷◌, ◌++◌, Option, none, some, String, if◌then◌else◌,
  not,
}
use aitrading.Common.Int.{ℤ, pos, ◌+ℤ◌, ◌-ℤ◌, ◌*ℤ◌, ltb_ℤ, leb_ℤ, eqb_ℤ, neg_ℤ, abs_ℤ, min_ℤ}
use aitrading.Common.Dict.{Dict, lookup, insert}

-- `side.upper()`: BUY, or anything else.
pub data Side : Type 0 where
  buy sell : Side

pub record FillRow : Type 0 where
  pub fill_id : ℕ
  pub client_order_id : ℕ
  pub instrument : String
  pub side : Side
  pub quantity : ℤ
  pub price : ℤ
  pub commission : ℤ
  pub ts : ℕ

pub record PositionRow : Type 0 where
  pub instrument : String
  pub quantity : ℤ
  pub avg_price : ℤ
  pub realized_pnl : ℤ
  pub updated_at : ℕ

-- From units of 10^-8 to units of 10^-16.
abbrev pub unit : ℤ
unit = pos 100000000

abbrev pub signed_quantity : FillRow → ℤ
signed_quantity f = elim (f.side) [ buy ↦ f.quantity | sell ↦ neg_ℤ f.quantity ]

abbrev pub quantity_of : Option PositionRow → ℤ
quantity_of none = pos 0
quantity_of (some p) = p.quantity

abbrev pub average_of : Option PositionRow → ℤ
average_of none = pos 0
average_of (some p) = p.avg_price

abbrev pub realized_of : Option PositionRow → ℤ
realized_of none = pos 0
realized_of (some p) = p.realized_pnl

-- `cur_qty == 0 or (cur_qty > 0) == (signed > 0)`
abbrev pub same_direction : (cur_qty signed : ℤ) → Bool
same_direction q s =
    eqb_ℤ q (pos 0) || (if ltb_ℤ (pos 0) q then ltb_ℤ (pos 0) s else not (ltb_ℤ (pos 0) s))

module _ (divide : ℤ → ℤ → ℤ) where
  -- The average price after a fill that opens or adds.
  abbrev pub weighted_average : (cur_qty cur_avg signed price : ℤ) → ℤ
  weighted_average q avg s price =
      let new_qty = q +ℤ s in
      if eqb_ℤ new_qty (pos 0)
      then pos 0
      else divide (avg *ℤ abs_ℤ q +ℤ price *ℤ abs_ℤ s) (abs_ℤ new_qty)

  -- The average price after a fill that reduces, closes or flips.
  abbrev pub reduced_average : (cur_qty cur_avg signed price : ℤ) → ℤ
  reduced_average q avg s price =
      if eqb_ℤ (q +ℤ s) (pos 0) then pos 0 else if leb_ℤ (abs_ℤ s) (abs_ℤ q) then avg else price

  -- What a fill against the position realizes, before its commission.
  abbrev pub realized_delta : (cur_qty cur_avg signed price : ℤ) → ℤ
  realized_delta q avg s price =
      let closed = (price -ℤ avg) *ℤ min_ℤ (abs_ℤ s) (abs_ℤ q) in
      if ltb_ℤ (pos 0) q then closed else neg_ℤ closed

  -- `apply_fill_to_position`
  unfoldable pub apply_fill_to_position : (now : ℕ) → Option PositionRow → FillRow → PositionRow
  apply_fill_to_position now current f =
      let q = quantity_of current in
      let avg = average_of current in
      let s = signed_quantity f in
      let realized = realized_of current -ℤ f.commission *ℤ unit in
      record {
        instrument = f.instrument;
        quantity = q +ℤ s;
        avg_price =
            if same_direction q s
            then weighted_average q avg s f.price
            else reduced_average q avg s f.price;
        realized_pnl =
            if same_direction q s then realized else realized +ℤ realized_delta q avg s f.price;
        updated_at = now;
      }

  -- The loop of `reconstruct_positions`, over the fills in the order of their timestamps.
  unfoldable pub replay : (now : ℕ) → Dict PositionRow → List FillRow → Dict PositionRow
  replay now out [] = out
  replay now out (f ∷ fills) =
      replay now (insert f.instrument (apply_fill_to_position now (lookup f.instrument out) f) out)
        fills

-- `reconstruct_positions`
unfoldable pub reconstruct_positions :
    (divide : ℤ → ℤ → ℤ) (now : ℕ) → List FillRow → Dict PositionRow
unfolding replay
reconstruct_positions divide now fills = replay divide now [] fills
