-- ===== src/Tests/Money.antt =====
-- Positions and reconciliation of src/atp/runtime/positions.py at concrete fills and books.
use aitrading.Common.{ℕ, ◌/◌, List, [], ◌∷◌, none, some, String, ◌≡◌, refl}
use aitrading.Common.Int.{ℤ, pos, pos_part, ◌+ℤ◌, ◌*ℤ◌}
use aitrading.Common.Dict.{Dict}
use aitrading.Runtime.Positions.{Side, FillRow, buy, sell, apply_fill_to_position}
use aitrading.Runtime.Positions.Accounting.{
  net_cost, paid, Exactly, apply_fill_to_position-net_cost,
}

abbrev fill_at : ℕ → String → Side → ℤ → ℤ → FillRow
fill_at n instrument side quantity price = record {
  fill_id = n;
  client_order_id = n;
  instrument = instrument;
  side = side;
  quantity = quantity;
  price = price;
  commission = pos 1;
  ts = n;
}

-- The division of positive numbers, rounded down.
abbrev divide : ℤ → ℤ → ℤ
divide x y = pos (pos_part x / pos_part y)

abbrev fills : List FillRow
fills =
    fill_at 1 "AAA" buy (pos 10) (pos 100)
    ∷ fill_at 2 "BBB" buy (pos 1) (pos 7)
    ∷ fill_at 3 "AAA" sell (pos 10) (pos 110)
    ∷ []

first_fill-Exactly : Exactly divide none (fill_at 1 "AAA" buy (pos 10) (pos 100))
unfolding ◌+ℤ◌ ◌*ℤ◌
first_fill-Exactly same = refl

apply_fill_to_position-net_cost_example :
    let f = fill_at 1 "AAA" buy (pos 10) (pos 100) in
    net_cost (some (apply_fill_to_position divide 5 none f)) ≡ net_cost none +ℤ paid f
apply_fill_to_position-net_cost_example =
    apply_fill_to_position-net_cost divide 5 none (fill_at 1 "AAA" buy (pos 10) (pos 100))
      first_fill-Exactly

abbrev book : Dict ℤ
book = ("AAA", pos 10) ∷ ("BBB", pos 1) ∷ []
