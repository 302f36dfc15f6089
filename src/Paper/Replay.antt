-- ===== src/Paper/Replay.antt =====
-- The account and the positions of a run are what its fills add up to, src/atp/store/base.py.
use text.Mathlib.Text.{◌==◌ as str_eq}
use aitrading.Common.{
  Option, none, some, String, List, [], ◌∷◌, ◌++◌, ◌≡◌, refl, ap, ◌∙◌, subst, arith, if◌then◌else◌,
  Bool-cases, inl, inr,
}
use aitrading.Common.Int.{ℤ, pos, negsuc, ◌+ℤ◌, ◌-ℤ◌, ◌*ℤ◌, int_laws, +ℤ-*ℤ, -ℤ-*ℤ}
use aitrading.Runtime.Positions.{Side, buy, sell}
use aitrading.Paper.Orders.{PaperOrderRow}
use aitrading.Paper.Money.{exact_ratio}
use aitrading.Paper.Tables.{PaperLedger, PaperAccountRow, PaperPositionRow, PaperFillRow, put}
use aitrading.Paper.Keys.{str_same, put_same, put_other}
use aitrading.Paper.Fill.Project.{value_of, amount_of, is_of_run, cash_after, signed}

-- 10^16, by which an amount becomes a product of three.
abbrev pub scale : ℤ
scale = pos 10_000_000_000_000_000

abbrev pub signed_value : Side → ℤ → ℤ
signed_value buy v = pos 0 -ℤ v
signed_value sell v = v

-- What a fill adds to the cash, in units of 10^-24: less its value for a BUY, plus it for a SELL, and less the
-- commission.
abbrev pub cash_flow : PaperFillRow → ℤ
cash_flow f =
    signed_value f.side (value_of f.quantity f.price f.multiplier) -ℤ f.commission *ℤ scale

-- What it adds to the quantity of an instrument.
abbrev pub quantity_flow : (instrument : String) → PaperFillRow → ℤ
quantity_flow instrument f =
    if str_eq f.instrument instrument then signed f.side (pos 0) f.quantity else pos 0

-- The sum over the fills of a run's orders.
unfoldable pub sum_over :
    (flow : PaperFillRow → ℤ) (run_id : String)
    → (String → Option PaperOrderRow)
    → List PaperFillRow
    → ℤ
sum_over flow run_id orders [] = pos 0
sum_over flow run_id orders (f ∷ fills) =
    (if is_of_run run_id (orders f.client_order_id) then flow f else pos 0)
    +ℤ sum_over flow run_id orders fills

abbrev pub held : Option PaperPositionRow → ℤ
held none = pos 0
held (some p) = p.quantity

-- The cash is the starting cash with the flows, and a run without an account has none.
abbrev pub CashOf : Option PaperAccountRow → (flows : ℤ) → Type 0
CashOf none flows = flows ≡ pos 0
CashOf (some a) flows = a.cash *ℤ scale ≡ a.starting_cash *ℤ scale +ℤ flows

-- Every account and every position is what the fills add up to.
unfoldable pub IsReplayed : PaperLedger → Type 0
IsReplayed l =
    (run_id instrument : String)
    → CashOf (l.accounts run_id) (sum_over cash_flow run_id l.orders l.fills)
      × (held (l.positions run_id instrument)
          ≡ sum_over (quantity_flow instrument) run_id l.orders l.fills)

exact_ratio-ok : (x y : ℤ) → exact_ratio x 10_000_000_000_000_000 ≡ some y → y *ℤ scale ≡ x
unfolding exact_ratio ◌*ℤ◌
exact_ratio-ok (pos n) y h = ground arith
exact_ratio-ok (negsuc n) y h = ground arith

pub amount_of-ok : (q p m y : ℤ) → amount_of q p m ≡ some y → y *ℤ scale ≡ value_of q p m
unfolding amount_of
amount_of-ok q p m y h = exact_ratio-ok (value_of q p m) y h

-- The sum with one fill more.
sum_over-++ :
    (flow : PaperFillRow → ℤ) (run_id : String) (orders : String → Option PaperOrderRow)
    (fills : List PaperFillRow) (f : PaperFillRow)
    → sum_over flow run_id orders (fills ++ f ∷ [])
      ≡ sum_over flow run_id orders fills
        +ℤ (if is_of_run run_id (orders f.client_order_id) then flow f else pos 0)
unfolding sum_over
sum_over-++ flow run_id orders [] f = omega int_laws
sum_over-++ flow run_id orders (g ∷ fills) f =
    let e = sum_over-++ flow run_id orders fills f in rw e (omega int_laws)

-- Orders of the same runs have the same sum.
sum_over-orders :
    (flow : PaperFillRow → ℤ) (run_id : String) (orders others : String → Option PaperOrderRow)
    (fills : List PaperFillRow)
    → ((id : String) → is_of_run run_id (others id) ≡ is_of_run run_id (orders id))
    → sum_over flow run_id others fills ≡ sum_over flow run_id orders fills
unfolding sum_over
sum_over-orders flow run_id orders others [] same = refl
sum_over-orders flow run_id orders others (f ∷ fills) same =
    rw (same f.client_order_id, sum_over-orders flow run_id orders others fills same) refl

put-is_of_run :
    (run_id c : String) (o p : PaperOrderRow) (orders : String → Option PaperOrderRow)
    → orders c ≡ some o
    → p.run_id ≡ o.run_id
    → (id : String) → is_of_run run_id (put c (some p) orders id) ≡ is_of_run run_id (orders id)
put-is_of_run run_id c o p orders stored same id = elim (Bool-cases (str_eq c id)) [
  | inl here ↦
      subst (λ id. is_of_run run_id (put c (some p) orders id) ≡ is_of_run run_id (orders id))
        (str_same c id here)
        (rw (put_same c (some p) orders, stored) (ap (λ r. str_eq r run_id) same))
  | inr there ↦ rw (put_other c id (some p) orders there) refl
]

-- The sum after a fill of an order that is stored.
pub sum_over-filled :
    (flow : PaperFillRow → ℤ) (run_id : String) (orders : String → Option PaperOrderRow)
    (fills : List PaperFillRow) (f : PaperFillRow) (o p : PaperOrderRow)
    → orders f.client_order_id ≡ some o
    → p.run_id ≡ o.run_id
    → sum_over flow run_id (put f.client_order_id (some p) orders) (fills ++ f ∷ [])
      ≡ sum_over flow run_id orders fills +ℤ (if str_eq o.run_id run_id then flow f else pos 0)
sum_over-filled flow run_id orders fills f o p stored same =
    sum_over-orders flow run_id orders (put f.client_order_id (some p) orders) (fills ++ f ∷ [])
      (put-is_of_run run_id f.client_order_id o p orders stored same)
    ∙ sum_over-++ flow run_id orders fills f
    ∙ rw stored refl

-- The cash of one step, in units of 10^-24.
pub cash_step :
    (side : Side) (cash notional fee value start flows : ℤ)
    → notional *ℤ scale ≡ value
    → cash *ℤ scale ≡ start *ℤ scale +ℤ flows
    → cash_after side cash notional fee *ℤ scale
      ≡ start *ℤ scale +ℤ (flows +ℤ (signed_value side value -ℤ fee *ℤ scale))
cash_step buy cash notional fee value start flows v c =
    rw (-ℤ-*ℤ (cash -ℤ notional) fee scale, -ℤ-*ℤ cash notional scale, c, v) (omega int_laws)
cash_step sell cash notional fee value start flows v c =
    rw (-ℤ-*ℤ (cash +ℤ notional) fee scale, +ℤ-*ℤ cash notional scale, c, v) (omega int_laws)

pub quantity_step : (side : Side) (old q : ℤ) → signed side old q ≡ old +ℤ signed side (pos 0) q
quantity_step buy old q = omega int_laws
quantity_step sell old q = omega int_laws
