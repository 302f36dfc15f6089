-- ===== src/Paper/Cancel/Drained.antt =====
-- The run's orders after a bulk cancellation, src/atp/store/base.py.
use text.Mathlib.Text.{◌==◌ as str_eq}
use text.Mathlib.TextEquality.{eq_iff}
use aitrading.Common.{
  ℕ, Bool, true, false, ◌||◌, Option, some, String, List, [], ◌∷◌, ◌++◌, ◌+◌, ◌≡◌, ◌≢◌, refl, sym,
  ◌∙◌, subst, arith, ◌==◌, Bool-cases, inl, inr,
}
use aitrading.Common.Dict.{Dict, lookup, insert, lookup-insert_ne}
use aitrading.Paper.Orders.{
  PaperState, PaperOrderRow, PaperEventRow, PaperStore, has_event_id, is_event_taken, log_of,
  max_seq, order_event, append_order_event, EventHash, intent, authorized, rejected, filled,
  cancelled, same_state, updated, stepped,
}
use aitrading.Paper.Orders.Log.{log_of-++_other}
use aitrading.Paper.Runs.{PaperRunRow}
use aitrading.Paper.Money.{ok, is_empty}
use aitrading.Paper.Cancel.{
  is_recovering, is_open, open_orders, cancellation, cancel_one, cancel_each, is_unserialized,
  cancel_paper_nonterminal_orders,
}
use aitrading.Paper.Cancel.Listed.{
  has_id, has_key, IsKeyed, Apart, Stored, covered, has_open, open_orders-Apart, open_orders-Stored,
  open_orders-covered,
}

insert-has_key :
    (k j : String) (v : PaperOrderRow) (d : Dict PaperOrderRow)
    → has_key j (insert k v d) ≡ str_eq k j || has_key j d
unfolding insert
insert-has_key k j v [] = refl
insert-has_key k j v ((i, w) ∷ d) =
    ground (arith, insert-has_key k j v d, eq_iff i k, eq_iff k j, eq_iff i j)

insert-IsKeyed :
    (k : String) (v : PaperOrderRow) (d : Dict PaperOrderRow)
    → v.client_order_id ≡ k
    → IsKeyed d
    → IsKeyed (insert k v d)
unfolding insert
insert-IsKeyed k v [] h keyed = (h, refl, tt)
insert-IsKeyed k v ((i, w) ∷ d) h keyed =
    ground (arith, insert-IsKeyed k v d h, insert-has_key k i v d, eq_iff i k, eq_iff k i)

covered-absent :
    (run_id : String) (o : PaperOrderRow) (os : List PaperOrderRow) (d : Dict PaperOrderRow)
    → IsKeyed d
    → has_key o.client_order_id d ≡ false
    → covered run_id (o ∷ os) d ≡ true
    → covered run_id os d ≡ true
covered-absent run_id o os [] keyed h c = refl
covered-absent run_id o os ((k, p) ∷ d) keyed h c = ground (
  arith,
  covered-absent run_id o os d,
  eq_iff o.client_order_id k,
  eq_iff k o.client_order_id,
  eq_iff o.client_order_id p.client_order_id,
)

key_same : (k j : String) → str_eq k j ≡ true → k ≡ j
key_same k j h = ground (arith, eq_iff k j)

key_swap : (k j : String) → str_eq k j ≡ false → str_eq j k ≡ false
key_swap k j h = ground (arith, eq_iff k j, eq_iff j k)

covered-tail :
    (run_id k : String) (p : PaperOrderRow) (os : List PaperOrderRow) (d : Dict PaperOrderRow)
    → covered run_id os ((k, p) ∷ d) ≡ true
    → covered run_id os d ≡ true
covered-tail run_id k p os d h = ground arith

covered-closed :
    (run_id k : String) (v : PaperOrderRow) (os : List PaperOrderRow) (d : Dict PaperOrderRow)
    → is_open v.state ≡ false
    → covered run_id os d ≡ true
    → covered run_id os ((k, v) ∷ d) ≡ true
covered-closed run_id k v os d closed h = ground arith

covered-head :
    (run_id k : String) (p o : PaperOrderRow) (os : List PaperOrderRow) (d e : Dict PaperOrderRow)
    → str_eq o.client_order_id p.client_order_id ≡ false
    → covered run_id (o ∷ os) ((k, p) ∷ d) ≡ true
    → covered run_id os e ≡ true
    → covered run_id os ((k, p) ∷ e) ≡ true
covered-head run_id k p o os d e apart h c = ground arith

-- A listed order whose row is closed need not be listed.
covered-insert :
    (run_id : String) (o v : PaperOrderRow) (os : List PaperOrderRow) (d : Dict PaperOrderRow)
    → IsKeyed d
    → is_open v.state ≡ false
    → covered run_id (o ∷ os) d ≡ true
    → covered run_id os (insert o.client_order_id v d) ≡ true
unfolding insert
covered-insert run_id o v os [] keyed closed c = ground arith
covered-insert run_id o v os ((k, p) ∷ d) keyed closed c =
    elim (Bool-cases (str_eq k o.client_order_id)) [
      | inl same ↦ rw same (
          covered-closed run_id o.client_order_id v os d closed (
            covered-absent run_id o os d keyed.2
              (subst (λ k. has_key k d ≡ false) (key_same k o.client_order_id same) keyed.1)
              (covered-tail run_id k p (o ∷ os) d c)))
      | inr other ↦ rw other (
          covered-head run_id k p o os d (insert o.client_order_id v d)
            (rw keyed.0 (key_swap k o.client_order_id other)) c
            (covered-insert run_id o v os d keyed.2 closed (covered-tail run_id k p (o ∷ os) d c)))
    ]

Stored-insert :
    (k : String) (v : PaperOrderRow) (d : Dict PaperOrderRow) (os : List PaperOrderRow)
    → has_id k os ≡ false
    → Stored d os
    → Stored (insert k v d) os
Stored-insert k v d [] h s = tt
Stored-insert k v d (o ∷ os) h s = ground (
  arith,
  Stored-insert k v d os,
  lookup-insert_ne k o.client_order_id v d,
  eq_iff o.client_order_id k,
)

abbrev cancelled_row : (reason : String) (now : ℕ) → PaperOrderRow → PaperOrderRow
cancelled_row reason now o = updated (cancellation reason o) now o

abbrev cancelled_store :
    EventHash → (reason : String) (now : ℕ) → PaperOrderRow → PaperStore → PaperStore
cancelled_store hash reason now o s = stepped hash (cancellation reason o) now o s

-- No event of the table has the identifier of the cancellation of an order.
abbrev IsFree : EventHash → List PaperEventRow → String → Type 0
IsFree hash events id = is_event_taken hash id cancelled events ≡ false

abbrev AreFree : EventHash → List PaperEventRow → List PaperOrderRow → Type 0
AreFree hash events [] = Unit {0}
AreFree hash events (o ∷ os) = IsFree hash events o.client_order_id × AreFree hash events os

-- The identifiers of the cancellations of two orders differ.
abbrev pub TellsApart : EventHash → Type 0
TellsApart hash = (id j : String) (m n : ℕ) → hash id m cancelled ≡ hash j n cancelled → id ≡ j

-- The cancellation of every stored order has a free identifier.
abbrev pub HasRoom : EventHash → PaperStore → Type 0
HasRoom hash s =
    (o : PaperOrderRow)
    → lookup o.client_order_id s.orders ≡ some o
    → is_event_taken hash o.client_order_id cancelled s.events ≡ false

has_event_id-++ :
    (x : String) (events : List PaperEventRow) (e : PaperEventRow)
    → has_event_id x events ≡ false
    → str_eq e.event_id x ≡ false
    → has_event_id x (events ++ e ∷ []) ≡ false
has_event_id-++ x [] e h k = ground arith
has_event_id-++ x (f ∷ events) e h k = ground (arith, has_event_id-++ x events e)

IsFree-++ :
    (hash : EventHash) (events : List PaperEventRow) (e : PaperEventRow) (id : String) (n : ℕ)
    → TellsApart hash
    → e.client_order_id ≢ id
    → e.event_id ≡ hash e.client_order_id n cancelled
    → IsFree hash events id
    → IsFree hash (events ++ e ∷ []) id
IsFree-++ hash events e id n tells ne named free =
    let x = hash id (max_seq 0 (log_of id events) + 1) cancelled in
    rw (log_of-++_other id events e ne) (
      has_event_id-++ x events e free
        (differs e.event_id x (λ same. ne (tells e.client_order_id id n _ (sym named ∙ same)))))
  where
    differs : (a b : String) → a ≢ b → str_eq a b ≡ false
    differs a b h = ground (arith, eq_iff a b)

AreFree-++ :
    (hash : EventHash) (events : List PaperEventRow) (e : PaperEventRow) (n : ℕ)
    (os : List PaperOrderRow)
    → TellsApart hash
    → has_id e.client_order_id os ≡ false
    → e.event_id ≡ hash e.client_order_id n cancelled
    → AreFree hash events os
    → AreFree hash (events ++ e ∷ []) os
AreFree-++ hash events e n [] tells h named free = tt
AreFree-++ hash events e n (o ∷ os) tells h named free =
    let (other, apart) = or_false (str_eq o.client_order_id e.client_order_id) _ h in
    (
      IsFree-++ hash events e o.client_order_id n tells (differ o.client_order_id _ other) named
          free.0,
      AreFree-++ hash events e n os tells apart named free.1,
    )
  where
    or_false : (a b : Bool) → (a || b) ≡ false → (a ≡ false) × (b ≡ false)
    or_false a b h = ground arith

    differ : (k j : String) → str_eq k j ≡ false → j ≢ k
    differ k j h e = ground (arith, eq_iff k j)

Stored-AreFree :
    (hash : EventHash) (s : PaperStore) (os : List PaperOrderRow)
    → HasRoom hash s
    → Stored s.orders os
    → AreFree hash s.events os
Stored-AreFree hash s [] room stored = tt
Stored-AreFree hash s (o ∷ os) room stored =
    (room o stored.0, Stored-AreFree hash s os room stored.1)

-- A round on a row that is stored finds its state and version.
cancel_one-ok :
    (hash : EventHash) (reason : String) (now : ℕ) (o : PaperOrderRow) (s : PaperStore)
    → lookup o.client_order_id s.orders ≡ some o
    → IsFree hash s.events o.client_order_id
    → cancel_one hash reason now o s
      ≡ ok (cancelled_row reason now o, cancelled_store hash reason now o s)
unfolding cancel_one
cancel_one-ok hash reason now o s h free =
    rw h (rw (same_state_self o.state, same_number o.version) (rw free refl))
  where
    same_state_self : (st : PaperState) → same_state st st ≡ true
    same_state_self intent = refl
    same_state_self authorized = refl
    same_state_self rejected = refl
    same_state_self cancelled = refl
    same_state_self filled = refl

    same_number : (n : ℕ) → (n == n) ≡ true
    same_number n = ground arith

-- The rounds all succeed, and leave no open order of the run.
cancel_each-ok :
    (hash : EventHash) (run_id reason : String) (now : ℕ) (os : List PaperOrderRow) (s : PaperStore)
    → TellsApart hash
    → IsKeyed s.orders
    → Apart os
    → Stored s.orders os
    → AreFree hash s.events os
    → covered run_id os s.orders ≡ true
    → (rows : List PaperOrderRow) × (s' : PaperStore) × (cancel_each hash reason now os s
        ≡ ok (rows, s'))
      × (covered run_id [] s'.orders ≡ true)
unfolding cancel_each append_order_event
cancel_each-ok hash run_id reason now [] s tells keyed apart stored free c = ([], s, refl, c)
cancel_each-ok hash run_id reason now (o ∷ os) s tells keyed apart stored free c =
    let id = o.client_order_id in
    let v = cancelled_row reason now o in
    let after = cancelled_store hash reason now o s in
    let (rows, last, e, drained) =
      cancel_each-ok hash run_id reason now os after tells
        (insert-IsKeyed o.client_order_id v s.orders refl keyed) apart.1
        (Stored-insert o.client_order_id v s.orders os apart.0 stored.1)
        (AreFree-++ hash s.events
          (order_event hash id cancelled (some o.state) (some cancelled) (some reason) now s.events)
          (max_seq 0 (log_of id s.events) + 1) os tells apart.0 refl free.1)
        (covered-insert run_id o v os s.orders keyed refl c) in
    (v ∷ rows, last, rw (cancel_one-ok hash reason now o s stored.0 free.0, e) refl, drained)

covered-has_open :
    (run_id : String) (d : Dict PaperOrderRow)
    → covered run_id [] d ≡ true
    → has_open run_id d ≡ false
covered-has_open run_id [] h = refl
covered-has_open run_id ((k, o) ∷ d) h = ground (arith, covered-has_open run_id d)

-- On a table of orders whose rows are under their identifiers, each once, where the identifiers of the cancellation
-- events of two orders differ and that of a stored order is not in the table of events yet: a bulk cancellation of a run
-- that waits for recovery, is stopped or has failed, with a reason, succeeds, and leaves the run without an open order.
-- On SQLite this asks for a row of risk_config.
pub cancel-drained :
    (hash : EventHash) (text_before : String → String → Bool) (money_as_text has_risk_config : Bool)
    (run_id reason : String) (now : ℕ) (runs : String → Option PaperRunRow) (run : PaperRunRow)
    (s : PaperStore)
    → TellsApart hash
    → HasRoom hash s
    → IsKeyed s.orders
    → is_empty reason ≡ false
    → is_unserialized money_as_text has_risk_config ≡ false
    → runs run_id ≡ some run
    → is_recovering run.status ≡ true
    → (rows : List PaperOrderRow) × (s' : PaperStore) × (cancel_paper_nonterminal_orders hash
          text_before money_as_text has_risk_config run_id reason now runs s
        ≡ ok (rows, s'))
      × (has_open run_id s'.orders ≡ false)
unfolding cancel_paper_nonterminal_orders
cancel-drained hash text_before money_as_text has_risk_config run_id reason now runs run s tells
      room keyed worded serialized found recovering =
    let os = open_orders text_before run_id s.orders in
    let stored = open_orders-Stored text_before run_id s.orders keyed in
    let (rows, last, e, drained) =
      cancel_each-ok hash run_id reason now os s tells keyed
        (open_orders-Apart text_before run_id s.orders keyed) stored
        (Stored-AreFree hash s os room stored) (open_orders-covered text_before run_id s.orders) in
    (
      rows,
      last,
      rw (worded, serialized) (rw found (rw recovering e)),
      covered-has_open run_id last.orders drained,
    )
