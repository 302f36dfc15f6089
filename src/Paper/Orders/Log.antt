-- ===== src/Paper/Orders/Log.antt =====
-- The event log of an order: a walk from no state to the state of its row.
use text.Mathlib.Text.{◌==◌ as str_eq}
use text.Mathlib.TextEquality.{eq_iff}
use aitrading.Common.{
  ℕ, ◌+◌, Bool, true, false, ◌&&◌, not, List, [], ◌∷◌, ◌++◌, Option, none, some, String,
  if◌then◌else◌, ◌==◌, ltb, ◌≡◌, ◌≢◌, refl, sym, ap, ◌∙◌, subst, arith, Bool-cases, inl, inr,
}
use aitrading.Common.Dict.{lookup, lookup-insert_self, lookup-insert_ne}
use aitrading.Paper.Orders.{
  PaperState, intent, PaperOrderRow, PaperEventRow, PaperStore, PaperResult, moved, raised,
  compare_and_swap_failed, event_id_exists, is_event_taken, invalid_transition,
  invalid_broker_order_id, is_empty_text, EventHash, TransitionRequest, allowed, same_state, log_of,
  max_seq, append_order_event, order_event, stepped, updated, swapped, transition_paper_order,
}

-- The step that an event may take: an order begins as an intent, and then moves as the table allows.
abbrev pub legal_step : Option PaperState → Option PaperState → Option PaperState → Bool
legal_step none none (some intent) = true
legal_step (some at) (some from) (some to) = same_state at from && allowed from to
legal_step _ _ _ = false

-- The state and the number of events at the end of a log, if each event starts where the last one ended, takes
-- a step that the table allows and has the next number; nothing if one does not.
abbrev pub walk : Option PaperState → ℕ → List PaperEventRow → Option (Option PaperState × ℕ)
walk at n [] = some (at, n)
walk at n (e ∷ log) =
    let rest = walk e.new_state (n + 1) log in
    if legal_step at e.previous_state e.new_state && (e.seq == (n + 1)) then rest else none

walk-++ :
    (log : List PaperEventRow) (e : PaperEventRow) (at : Option PaperState) (n : ℕ)
    (st : Option PaperState) (k : ℕ)
    → walk at n log ≡ some (st, k)
    → legal_step st e.previous_state e.new_state ≡ true
    → e.seq ≡ k + 1
    → walk at n (log ++ e ∷ []) ≡ some (e.new_state, k + 1)
walk-++ [] e at n st k w l q = ground arith
walk-++ (f ∷ log) e at n st k w l q = ground (arith, walk-++ log e f.new_state (n + 1) st k)

next_number : (n s : ℕ) → (s == (n + 1)) ≡ true → (if ltb n s then s else n) ≡ n + 1
next_number n s h = ground arith

walk-head :
    (e : PaperEventRow) (log : List PaperEventRow) (at : Option PaperState) (n : ℕ)
    (st : Option PaperState) (k : ℕ)
    → walk at n (e ∷ log) ≡ some (st, k)
    → ((e.seq == (n + 1)) ≡ true) × (walk e.new_state (n + 1) log ≡ some (st, k))
walk-head e log at n st k w = ground arith

walk-max_seq :
    (log : List PaperEventRow) (at : Option PaperState) (n : ℕ) (st : Option PaperState) (k : ℕ)
    → walk at n log ≡ some (st, k)
    → max_seq n log ≡ k
walk-max_seq [] at n st k w = ground arith
walk-max_seq (e ∷ log) at n st k w =
    let (number, rest) = walk-head e log at n st k w in
    ap (λ x. max_seq x log) (next_number n e.seq number)
    ∙ walk-max_seq log e.new_state (n + 1) st k rest

log_of-++_same :
    (id : String) (events : List PaperEventRow) (e : PaperEventRow)
    → e.client_order_id ≡ id
    → log_of id (events ++ e ∷ []) ≡ log_of id events ++ e ∷ []
log_of-++_same id [] e h = ground (arith, eq_iff e.client_order_id id)
log_of-++_same id (f ∷ events) e h = ground (arith, log_of-++_same id events e h)

pub log_of-++_other :
    (id : String) (events : List PaperEventRow) (e : PaperEventRow)
    → e.client_order_id ≢ id
    → log_of id (events ++ e ∷ []) ≡ log_of id events
log_of-++_other id [] e h = ground (arith, eq_iff e.client_order_id id)
log_of-++_other id (f ∷ events) e h = ground (arith, log_of-++_other id events e h)

-- The log of an order that is not stored is empty; the log of a stored one is a walk to its state, and has
-- one event more than the order has versions.
unfoldable pub Logged : Option PaperOrderRow → List PaperEventRow → Type 0
Logged none log = log ≡ []
Logged (some o) log = walk none 0 log ≡ some (some o.state, o.version + 1)

abbrev pub IsLogged : PaperStore → Type 0
IsLogged s = (id : String) → Logged (lookup id s.orders) (log_of id s.events)

same_state_eq : (a b : PaperState) → same_state a b ≡ true → a ≡ b
same_state_eq a b h = ground arith

extended :
    (hash : EventHash) (r : TransitionRequest) (now : ℕ) (o : PaperOrderRow)
    (events : List PaperEventRow)
    → Logged (some o) (log_of r.client_order_id events)
    → same_state o.state r.expected_status ≡ true
    → allowed r.expected_status r.new_status ≡ true
    → Logged (some (updated r now o)) (
        log_of r.client_order_id (
          append_order_event hash r.client_order_id r.new_status
            (some r.expected_status)
            (some r.new_status)
            r.reason
            now
            events))
unfolding Logged append_order_event
extended hash r now o events w s a =
    let log = log_of r.client_order_id events in
    let numbered = walk-max_seq log none 0 (some o.state) (o.version + 1) w in
    let event =
      order_event hash r.client_order_id r.new_status (some r.expected_status) (some r.new_status)
        r.reason now events in
    rw (log_of-++_same r.client_order_id events event refl) (
      walk-++ log event none 0 (some o.state) (o.version + 1) w
        (ground (arith, same_state_eq o.state r.expected_status s)) (ap (λ x. x + 1) numbered))

stepped-IsLogged :
    (hash : EventHash) (r : TransitionRequest) (now : ℕ) (o : PaperOrderRow) (s : PaperStore)
    → lookup r.client_order_id s.orders ≡ some o
    → same_state o.state r.expected_status ≡ true
    → allowed r.expected_status r.new_status ≡ true
    → IsLogged s
    → IsLogged (stepped hash r now o s)
unfolding append_order_event
stepped-IsLogged hash r now o s e st a h id =
    let c = r.client_order_id in
    let s' = stepped hash r now o s in
    let event =
      order_event hash c r.new_status (some r.expected_status) (some r.new_status) r.reason now
        s.events in
    elim (Bool-cases (str_eq c id)) [
      | inl same ↦
          subst (λ i. Logged (lookup i s'.orders) (log_of i s'.events)) ((eq_iff c id).0 same)
            (subst (λ x. Logged x (log_of c s'.events))
              (sym (lookup-insert_self c (updated r now o) s.orders))
              (extended hash r now o s.events (subst (λ x. Logged x (log_of c s.events)) e (h c)) st
                a))
      | inr other ↦
          let ne : c ≢ id = λ k. ground (arith, eq_iff c id, k) in
          subst (λ x. Logged x (log_of id s'.events))
            (sym (lookup-insert_ne c id (updated r now o) s.orders ne))
            (subst (λ l. Logged (lookup id s.orders) l) (sym (log_of-++_other id s.events event ne))
              (h id))
    ]

either-IsLogged :
    (t : Bool) (x y : PaperResult × PaperStore)
    → (t ≡ true → IsLogged x.1)
    → (t ≡ false → IsLogged y.1)
    → IsLogged (if t then x else y).1
either-IsLogged true x y h k = h refl
either-IsLogged false x y h k = k refl

swapped-IsLogged :
    (hash : EventHash) (r : TransitionRequest) (now : ℕ) (found : Option PaperOrderRow)
    (s : PaperStore)
    → lookup r.client_order_id s.orders ≡ found
    → allowed r.expected_status r.new_status ≡ true
    → IsLogged s
    → IsLogged (swapped hash r now found s).1
unfolding swapped
swapped-IsLogged hash r now none s e a h = h
swapped-IsLogged hash r now (some o) s e a h =
    either-IsLogged (same_state o.state r.expected_status && (o.version == r.expected_version))
      (if is_event_taken hash r.client_order_id r.new_status s.events
        then (raised event_id_exists, s)
        else (moved (updated r now o), stepped hash r now o s))
      (raised compare_and_swap_failed, s)
      (λ hit.
        either-IsLogged (is_event_taken hash r.client_order_id r.new_status s.events)
          (raised event_id_exists, s) (moved (updated r now o), stepped hash r now o s) (λ taken. h)
          (λ free. stepped-IsLogged hash r now o s e (ground arith) a h))
      (λ missed. h)

transition_paper_order-IsLogged :
    (hash : EventHash) (r : TransitionRequest) (now : ℕ) (s : PaperStore)
    → IsLogged s
    → IsLogged (transition_paper_order hash r now s).1
unfolding transition_paper_order
transition_paper_order-IsLogged hash r now s h =
    let rest = swapped hash r now (lookup r.client_order_id s.orders) s in
    either-IsLogged (not (allowed r.expected_status r.new_status))
      (raised (invalid_transition r.expected_status r.new_status), s)
      (if is_empty_text r.broker_order_id then (raised invalid_broker_order_id, s) else rest)
      (λ refused. h)
      (λ admitted.
        either-IsLogged (is_empty_text r.broker_order_id) (raised invalid_broker_order_id, s) rest
          (λ blank. h)
          (λ given.
            swapped-IsLogged hash r now (lookup r.client_order_id s.orders) s refl (ground arith)
              h))

-- Any transitions of any orders, each at its time.
unfoldable pub transition_each : EventHash → List (TransitionRequest × ℕ) → PaperStore → PaperStore
transition_each hash [] s = s
transition_each hash ((r, now) ∷ calls) s =
    transition_each hash calls (transition_paper_order hash r now s).1

transition_each-IsLogged :
    (hash : EventHash) (calls : List (TransitionRequest × ℕ)) (s : PaperStore)
    → IsLogged s
    → IsLogged (transition_each hash calls s)
unfolding transition_each
transition_each-IsLogged hash [] s h = h
transition_each-IsLogged hash ((r, now) ∷ calls) s h =
    transition_each-IsLogged hash calls (transition_paper_order hash r now s).1
      (transition_paper_order-IsLogged hash r now s h)

-- Where the log of every stored order is a walk to its state, it stays so over any transitions of any orders,
-- refused ones included: the events of an order, each legal, numbered from 1 without a gap and starting where
-- the last one ended, lead from nothing to the state of its row, and number one more than its version.
pub log_tells_state :
    (hash : EventHash) (calls : List (TransitionRequest × ℕ)) (s : PaperStore) (id : String)
    (o : PaperOrderRow)
    → IsLogged s
    → lookup id (transition_each hash calls s).orders ≡ some o
    → walk none 0 (log_of id (transition_each hash calls s).events)
      ≡ some (some o.state, o.version + 1)
unfolding Logged
log_tells_state hash calls s id o h e =
    let s' = transition_each hash calls s in
    subst (λ x. Logged x (log_of id s'.events)) e (transition_each-IsLogged hash calls s h id)
