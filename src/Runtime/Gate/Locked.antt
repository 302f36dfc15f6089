-- ===== src/Runtime/Gate/Locked.antt =====
-- The daily-loss lock of src/atp/runtime/gate.py over the calls that follow: the gate of a locked day stays shut.
use text.Mathlib.TextEquality.{eq_iff}
use aitrading.Common.{Bool, true, false, List, [], ◌∷◌, Option, some, String, ◌≡◌, refl, arith}
use aitrading.Common.Int.{ℤ}
use aitrading.Common.Dict.{lookup, lookup-insert}
use aitrading.Runtime.Durable.{
  Tables, World, ok, kill_engaged, stored_status, RiskConfigRow, DailyPnlRow, transition, audit,
  set_kill_switch, TransitionRequest,
}
use aitrading.Runtime.Durable.Daily.{
  loss_locked, set_daily_loss_lock, try_reserve_daily_risk, reserve_found,
}
use aitrading.Runtime.Durable.Canary.{
  PrepareRequest, DisableRequest, prepare_paper_runtime, disable_paper_runtime_if_no_active,
}
use aitrading.Runtime.Durable.Races.{
  Transaction, transition_tx, audit_tx, kill_tx, prepare_tx, disable_tx, commit,
}
use aitrading.Runtime.Gate.{can_trade, enforce_daily_loss, engage_once}
use aitrading.Runtime.Gate.Admission.{IsUsable, LimitReached, enforce_daily_loss-locks}

-- A call on the rows of the gate: of the enforcement, of the lock, of a reservation, or of another transaction.
pub data DayCall : Type 0 where
  enforce_call : (date : String) → DayCall
  lock_call : (date : String) (engaged : Bool) (reason : Option String) (actor : String) → DayCall
  reserve_call : (date : String) (amount limit : ℤ) → DayCall
  store_call : Transaction → DayCall

-- The world after a call.
abbrev pub after_call : DayCall → World → World
after_call (enforce_call date) w = (enforce_daily_loss date w).1
after_call (lock_call date engaged reason actor) w =
    (set_daily_loss_lock date engaged reason actor w).1
after_call (reserve_call date amount limit) w = (try_reserve_daily_risk date amount limit w).1
after_call (store_call t) w = commit t w

unfoldable pub after_calls : List DayCall → World → World
after_calls [] w = w
after_calls (c ∷ calls) w = after_calls calls (after_call c w)

-- No call of the list takes the lock of the day off.
abbrev pub KeepsLock : String → List DayCall → Type 0
KeepsLock date [] = Unit
KeepsLock date (lock_call d engaged _ _ ∷ calls) =
    (d ≡ date → engaged ≡ true) × KeepsLock date calls
KeepsLock date (enforce_call _ ∷ calls) = KeepsLock date calls
KeepsLock date (reserve_call _ _ _ ∷ calls) = KeepsLock date calls
KeepsLock date (store_call _ ∷ calls) = KeepsLock date calls

module _ (date : String) where
  set_daily_loss_lock-locked :
      (d : String) (engaged : Bool) (reason : Option String) (actor : String) (w : World)
      → (d ≡ date → engaged ≡ true)
      → loss_locked date w.db ≡ true
      → loss_locked date (set_daily_loss_lock d engaged reason actor w).1.db ≡ true
  unfolding set_daily_loss_lock
  set_daily_loss_lock-locked d engaged reason actor w keeps l = ground (
    arith,
    eq_iff d date,
    lookup-insert d date (record { engaged = engaged; reason = reason; updated_at = some w.clock })
        w.db.daily_loss_lock,
  )

  enforce-locked :
      (d : String) (w : World)
      → loss_locked date w.db ≡ true
      → loss_locked date (enforce_daily_loss d w).1.db ≡ true
  unfolding enforce_daily_loss engage_once
  enforce-locked d w l = ground (
    arith,
    set_daily_loss_lock-locked d true (some "daily loss limit reached (durable)") "risk" w
        (λ _. refl) l,
  )

  reserve-locked :
      (d : String) (amount limit : ℤ) (w : World)
      → loss_locked date w.db ≡ true
      → loss_locked date (try_reserve_daily_risk d amount limit w).1.db ≡ true
  unfolding try_reserve_daily_risk reserve_found
  reserve-locked d amount limit w l = ground arith

  transition-locked :
      (r : TransitionRequest) (w : World)
      → loss_locked date w.db ≡ true
      → loss_locked date (transition r w).1.db ≡ true
  unfolding transition
  transition-locked r w l = ground arith

  prepare-locked :
      (r : PrepareRequest) (w : World)
      → loss_locked date w.db ≡ true
      → loss_locked date (prepare_paper_runtime r w).1.db ≡ true
  unfolding prepare_paper_runtime
  prepare-locked r w l = ground (
    arith,
    eq_iff r.today date,
    lookup-insert r.today date
        (record {
          engaged = false;
          reason = some "Paper Canary pre-arm baseline";
          updated_at = some w.clock;
        })
        w.db.daily_loss_lock,
  )

  disable-locked :
      (r : DisableRequest) (w : World)
      → loss_locked date w.db ≡ true
      → loss_locked date (disable_paper_runtime_if_no_active r w).1.db ≡ true
  unfolding disable_paper_runtime_if_no_active
  disable-locked r w l = ground arith

  commit-locked :
      (t : Transaction) (w : World)
      → loss_locked date w.db ≡ true
      → loss_locked date (commit t w).db ≡ true
  unfolding commit audit set_kill_switch
  commit-locked (transition_tx r) w l = transition-locked r w l
  commit-locked (audit_tx a b c d e) w l = l
  commit-locked (kill_tx a b c) w l = l
  commit-locked (prepare_tx r) w l = prepare-locked r w l
  commit-locked (disable_tx r) w l = disable-locked r w l

  after_calls-locked :
      (calls : List DayCall) (w : World)
      → KeepsLock date calls
      → loss_locked date w.db ≡ true
      → loss_locked date (after_calls calls w).db ≡ true
  unfolding after_calls
  after_calls-locked [] w keeps l = l
  after_calls-locked (enforce_call d ∷ calls) w keeps l =
      after_calls-locked calls _ keeps (enforce-locked d w l)
  after_calls-locked (lock_call d engaged reason actor ∷ calls) w keeps l =
      after_calls-locked calls _ keeps.1
        (set_daily_loss_lock-locked d engaged reason actor w keeps.0 l)
  after_calls-locked (reserve_call d amount limit ∷ calls) w keeps l =
      after_calls-locked calls _ keeps (reserve-locked d amount limit w l)
  after_calls-locked (store_call t ∷ calls) w keeps l =
      after_calls-locked calls _ keeps (commit-locked t w l)

can_trade-locked :
    (date : String) (t : Tables) → loss_locked date t ≡ true → (can_trade date t).allowed ≡ false
unfolding can_trade
can_trade-locked date t l = ground arith

-- Where the configuration is usable and the loss of the day has reached the limit, enforcing answers true and leaves
-- the status and the kill latch as they were; and from then on the gate refuses every trade of that day, whatever
-- enforcements, reservations, transitions, prepares, disables, audits and switches of the latch follow, and whatever
-- changes of daily-loss locks other than one that takes the lock of this day off.
pub enforce_daily_loss_blocks :
    (date : String) (cfg : RiskConfigRow) (pnl : DailyPnlRow) (calls : List DayCall) (w : World)
    → w.db.risk_config ≡ some cfg
    → lookup date w.db.daily_pnl ≡ some pnl
    → IsUsable cfg
    → LimitReached cfg pnl
    → KeepsLock date calls
    → let (r, w') = enforce_daily_loss date w in
      (r ≡ ok true)
      × (stored_status w'.db ≡ stored_status w.db)
      × (kill_engaged w'.db ≡ kill_engaged w.db)
      × ((can_trade date (after_calls calls w').db).allowed ≡ false)
enforce_daily_loss_blocks date cfg pnl calls w c p u l keeps =
    let (done, locked, status, latch) = enforce_daily_loss-locks date cfg pnl w c p u l in
    (done, status, latch, can_trade-locked date _ (after_calls-locked date calls _ keeps locked))
