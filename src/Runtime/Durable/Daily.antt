-- ===== src/Runtime/Durable/Daily.antt =====
-- The daily P&L, the daily-loss lock and the risk configuration of src/atp/store/base.py.
use aitrading.Common.{
  ℕ, Bool, true, false, List, [], ◌∷◌, Option, none, some, String, ◌≡◌, refl, if◌then◌else◌,
  Bool-cases, inl, inr,
}
use aitrading.Common.Int.{ℤ, pos, ◌+ℤ◌, ◌-ℤ◌, ◌≤ℤ◌, ltb_ℤ, max_ℤ, neg_ℤ, int_laws}
use aitrading.Common.Dict.{lookup, insert, lookup-insert_self}
use aitrading.Runtime.Durable.{Tables, World, Result, Action, ◌>>=◌, new_id, ok, DailyPnlRow}

-- `get_daily_loss_lock(trade_date).engaged`: no row reads as disengaged.
abbrev pub loss_locked : String → Tables → Bool
loss_locked date t = elim (lookup date t.daily_loss_lock) [ none ↦ false | some row ↦ row.engaged ]

-- `max(0, -(realized + unrealized))`
abbrev pub loss_of : DailyPnlRow → ℤ
loss_of row = max_ℤ (pos 0) (neg_ℤ (row.realized_pnl +ℤ row.unrealized_pnl))

-- `set_daily_loss_lock`
unfoldable pub set_daily_loss_lock :
    (date : String) (engaged : Bool) (reason : Option String) (actor : String) → Action (Unit {0})
set_daily_loss_lock date engaged reason actor = do
  eid ← new_id
  cid ← new_id
  λ w. (
    ok tt,
    record w {
      db = record (w.db) {
        daily_loss_lock =
            insert date (record { engaged = engaged; reason = reason; updated_at = some w.clock })
              w.db.daily_loss_lock;
        audit_events =
            record {
              event_id = eid;
              ts = w.clock;
              actor = actor;
              action = if engaged then "DAILY_LOSS_LOCK" else "DAILY_LOSS_UNLOCK";
              previous_state = none;
              new_state = if engaged then some "HALTED" else none;
              reason = reason;
              correlation_id = cid;
            }
            ∷ w.db.audit_events;
      };
    },
  )

-- `amount > limit - loss_so_far`
abbrev pub exceeds_budget : (amount limit : ℤ) → DailyPnlRow → Bool
exceeds_budget amount limit row = ltb_ℤ (limit -ℤ loss_of row) amount

abbrev pub reserved : ℤ → ℕ → DailyPnlRow → DailyPnlRow
reserved amount now row = record row { realized_pnl = row.realized_pnl -ℤ amount; updated_at = now }

-- `try_reserve_daily_risk` once it has read the row of the day.
unfoldable pub reserve_found : (date : String) (amount limit : ℤ) → Option DailyPnlRow → Action Bool
reserve_found date amount limit none w = (ok false, w)
reserve_found date amount limit (some row) w =
    if exceeds_budget amount limit row then (ok false, w) else (
      ok true,
      record w {
        db = record (w.db) { daily_pnl = insert date (reserved amount w.clock row) w.db.daily_pnl };
      },
    )

-- `try_reserve_daily_risk`, as PostgreSQL runs it: the row is locked from the read on, so that the transaction is one step.
-- SQLite has no lock clause, and the read takes no lock there.
unfoldable pub try_reserve_daily_risk : (date : String) (amount limit : ℤ) → Action Bool
unfolding reserve_found
try_reserve_daily_risk date amount limit w =
    reserve_found date amount limit (lookup date w.db.daily_pnl) w

-- What a reservation takes of the budget: its amount where it is granted.
abbrev pub taken : Result Bool → ℤ → ℤ
taken (ok true) amount = amount
taken _ amount = pos 0

-- Reservations for one day, each transaction after the one before, with the sum of the granted ones.
unfoldable pub reserve_all : (date : String) (limit : ℤ) → List ℤ → World → ℤ × World
reserve_all date limit [] w = (pos 0, w)
reserve_all date limit (amount ∷ amounts) w =
    let (result, w') = try_reserve_daily_risk date amount limit w in
    let (granted, w'') = reserve_all date limit amounts w' in (taken result amount +ℤ granted, w'')

-- The row of a day has booked this much on top of an earlier row, and its loss is within a bound.
abbrev pub HasBooked : DailyPnlRow → (granted bound : ℤ) → DailyPnlRow → Type 0
HasBooked before granted bound after =
    (after.realized_pnl ≡ before.realized_pnl -ℤ granted)
    × (after.unrealized_pnl ≡ before.unrealized_pnl)
    × (loss_of after ≤ℤ bound)

reserved-HasBooked :
    (amount limit bound : ℤ) (now : ℕ) (row : DailyPnlRow)
    → pos 0 ≤ℤ limit
    → limit ≤ℤ bound
    → exceeds_budget amount limit row ≡ false
    → HasBooked row amount bound (reserved amount now row)
reserved-HasBooked amount limit bound now row z l h = (refl, refl, grind int_laws)

minus_zero : (a : ℤ) → a ≡ a -ℤ pos 0
minus_zero a = omega int_laws

reserve_found-HasBooked :
    (date : String) (amount limit bound : ℤ) (row : DailyPnlRow) (w : World)
    → pos 0 ≤ℤ limit
    → limit ≤ℤ bound
    → loss_of row ≤ℤ bound
    → lookup date w.db.daily_pnl ≡ some row
    → let (result, w') = reserve_found date amount limit (some row) w in
      (after : DailyPnlRow) × (lookup date w'.db.daily_pnl ≡ some after)
      × HasBooked row (taken result amount) bound after
unfolding reserve_found
reserve_found-HasBooked date amount limit bound row w z l h found =
    elim (Bool-cases (exceeds_budget amount limit row)) [
      | inl over ↦ rw over (row, found, (minus_zero row.realized_pnl, refl, h))
      | inr fits ↦ rw fits (
        reserved amount w.clock row,
        lookup-insert_self date (reserved amount w.clock row) w.db.daily_pnl,
        reserved-HasBooked amount limit bound w.clock row z l fits,
      )
    ]

try_reserve-HasBooked :
    (date : String) (amount limit bound : ℤ) (row : DailyPnlRow) (w : World)
    → pos 0 ≤ℤ limit
    → limit ≤ℤ bound
    → loss_of row ≤ℤ bound
    → lookup date w.db.daily_pnl ≡ some row
    → let (result, w') = try_reserve_daily_risk date amount limit w in
      (after : DailyPnlRow) × (lookup date w'.db.daily_pnl ≡ some after)
      × HasBooked row (taken result amount) bound after
unfolding try_reserve_daily_risk
try_reserve-HasBooked date amount limit bound row w z l h found =
    rw found (reserve_found-HasBooked date amount limit bound row w z l h found)

minus_minus : (x a b : ℤ) → (x -ℤ a) -ℤ b ≡ x -ℤ (a +ℤ b)
minus_minus x a b = omega int_laws

HasBooked-add :
    (before between after : DailyPnlRow) (a b bound : ℤ)
    → HasBooked before a bound between
    → HasBooked between b bound after
    → HasBooked before (a +ℤ b) bound after
HasBooked-add before between after a b bound h k =
    let e = minus_minus before.realized_pnl a b in
    let r : after.realized_pnl ≡ before.realized_pnl -ℤ (a +ℤ b) = cc (h.0, k.0, e) in
    let u : after.unrealized_pnl ≡ before.unrealized_pnl = cc (h.1, k.1) in (r, u, k.2)

reserve_all-HasBooked :
    (date : String) (limit bound : ℤ) (amounts : List ℤ) (before : DailyPnlRow) (w : World)
    → pos 0 ≤ℤ limit
    → limit ≤ℤ bound
    → loss_of before ≤ℤ bound
    → lookup date w.db.daily_pnl ≡ some before
    → let (granted, w') = reserve_all date limit amounts w in
      (after : DailyPnlRow) × (lookup date w'.db.daily_pnl ≡ some after)
      × HasBooked before granted bound after
unfolding reserve_all
reserve_all-HasBooked date limit bound [] before w z l h found =
    (before, found, (minus_zero before.realized_pnl, refl, h))
reserve_all-HasBooked date limit bound (amount ∷ amounts) before w z l h found =
    let (result, w') = try_reserve_daily_risk date amount limit w in
    let (between, found', booked) =
      try_reserve-HasBooked date amount limit bound before w z l h found in
    let (after, found'', booked') =
      reserve_all-HasBooked date limit bound amounts between w' z l booked.2 found' in
    (
      after,
      found'',
      HasBooked-add before between after (taken result amount) _ bound booked booked',
    )

net_loss_within :
    (granted bound : ℤ) (before after : DailyPnlRow)
    → HasBooked before granted bound after
    → neg_ℤ (before.realized_pnl +ℤ before.unrealized_pnl) +ℤ granted ≤ℤ bound
net_loss_within granted bound before after h = grind int_laws

-- Where the row of a day shows a loss of at most a bound, and the limit is at least zero and at most that bound:
-- whatever amounts are asked for on the day, one transaction after the other, the sum of the granted ones is booked
-- on the row as realized loss, the unrealized P&L is as it was, and the net loss before with that sum is within the bound. However many
-- authorizations are granted, they do not jointly exceed the budget.
pub reservations_within_budget :
    (date : String) (limit bound : ℤ) (amounts : List ℤ) (before : DailyPnlRow) (w : World)
    → pos 0 ≤ℤ limit
    → limit ≤ℤ bound
    → lookup date w.db.daily_pnl ≡ some before
    → loss_of before ≤ℤ bound
    → let (granted, w') = reserve_all date limit amounts w in
      (neg_ℤ (before.realized_pnl +ℤ before.unrealized_pnl) +ℤ granted ≤ℤ bound)
      × ((after : DailyPnlRow) × (lookup date w'.db.daily_pnl ≡ some after)
          × HasBooked before granted bound after)
reservations_within_budget date limit bound amounts before w z l found within =
    let booked = reserve_all-HasBooked date limit bound amounts before w z l within found in
    (net_loss_within _ bound before booked.0 booked.2, booked)
