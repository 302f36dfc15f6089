-- ===== src/Trading/PaperBroker/Replay.antt =====
-- The books of the paper broker of src/atp/brokers/paper.py against a replay of the fills that it reports.
use text.Mathlib.Text.{◌==◌ as str_eq}
use text.Mathlib.TextEquality.{eq_iff}
use aitrading.Common.{
  not, ◌||◌, List, [], ◌∷◌, ◌++◌, Option, none, some, String, if◌then◌else◌, ◌≡◌, refl, sym, ap,
  ◌∙◌, subst, Bool-cases, Option-cases, inl, inr,
}
use aitrading.Common.Dict.{Dict, lookup, insert, lookup-insert}
use aitrading.Common.Floats.{Floats}
use aitrading.Trading.Broker.{Instrument, Order, Fill, OrderResult, sign, order_quantity}
use aitrading.Trading.PaperBroker.{
  PaperBroker, QuoteEvent, Pos, connect, disconnect, set_liquidity, credit_cash, adjust_position,
  set_quote,
}
use aitrading.Trading.PaperBroker.Place.{
  pos_or_flat, pos_of, set_default, moved, realized, book, fill_at, paper_fill, fill_if_marketable,
  place_at, place_order_locked, with_slot, commission, is_invalid, fill_price, marketable,
}

-- What the books are about: the cash, what was realized, and the position under each key.
pub record Books (fl : Floats) : Type 0 where
  pub cash : fl.Float
  pub realized_pnl : fl.Float
  pub pos : String → Pos fl

pub data Entry (fl : Floats) : Type 0 where
  booked : Fill fl → Entry fl
  credited : fl.Float → Entry fl
  adjusted : String → (quantity avg : fl.Float) → Entry fl

abbrev pub set_pos : {fl : Floats} → String → Pos fl → (String → Pos fl) → String → Pos fl
set_pos key p f j = if str_eq key j then p else f j

abbrev pub enter : {fl : Floats} → Entry fl → Books fl → Books fl
enter {fl} (booked f) k =
    let qd = fl.times (sign fl f.side) f.quantity in
    let p = k.pos f.instrument.key in
    let mult = f.instrument.multiplier in
    record {
      cash = fl.minus (fl.minus k.cash (fl.times (fl.times f.price qd) mult)) f.commission;
      realized_pnl = realized p qd f.price mult f.commission k.realized_pnl;
      pos = set_pos f.instrument.key (moved p qd f.price) k.pos;
    }
enter {fl} (credited amount) k = record k { cash = fl.plus k.cash amount }
enter (adjusted key q avg) k = record k { pos = set_pos key (record { qty = q; avg = avg }) k.pos }

abbrev pub enter_all : {fl : Floats} → List (Entry fl) → Books fl → Books fl
enter_all [] k = k
enter_all (e ∷ entries) k = enter_all entries (enter e k)

-- A call of the broker that writes to it.
pub data BrokerCall (fl : Floats) : Type 0 where
  place_call : Order fl → BrokerCall fl
  set_quote_call : QuoteEvent fl → BrokerCall fl
  set_liquidity_call : String → fl.Float → BrokerCall fl
  credit_cash_call : fl.Float → BrokerCall fl
  adjust_position_call : Instrument fl → (quantity avg : fl.Float) → BrokerCall fl
  connect_call disconnect_call : BrokerCall fl

abbrev pub reported : {fl : Floats} → Option (Fill fl) → List (Entry fl)
reported none = []
reported (some f) = booked f ∷ []

-- The call with the entries that it reports.
unfoldable pub broker_call :
    {fl : Floats} → BrokerCall fl → PaperBroker fl → List (Entry fl) × PaperBroker fl
broker_call (place_call o) b = let (r, b') = place_order_locked o b in (reported r.fill, b')
broker_call (set_quote_call q) b = ([], set_quote q b)
broker_call (set_liquidity_call key adv) b = ([], set_liquidity key adv b)
broker_call (credit_cash_call amount) b = (credited amount ∷ [], credit_cash amount b)
broker_call (adjust_position_call i q avg) b =
    (adjusted i.key q avg ∷ [], adjust_position i q avg b)
broker_call connect_call b = ([], connect b)
broker_call disconnect_call b = ([], disconnect b)

unfoldable pub broker_calls :
    {fl : Floats} → List (BrokerCall fl) → PaperBroker fl → List (Entry fl) × PaperBroker fl
broker_calls [] b = ([], b)
broker_calls (c ∷ calls) b =
    let (here, b') = broker_call c b in
    let (rest, b'') = broker_calls calls b' in (here ++ rest, b'')

abbrev pub books_of : {fl : Floats} → PaperBroker fl → Books fl
books_of b = record { cash = b.cash; realized_pnl = b.realized_pnl; pos = λ key. pos_of key b }

-- The broker's books say the same as others.
pub record IsSame {fl : Floats} (b : PaperBroker fl) (k : Books fl) : Type 0 where
  pub same_cash : b.cash ≡ k.cash
  pub same_realized : b.realized_pnl ≡ k.realized_pnl
  pub same_pos : (key : String) → pos_of key b ≡ k.pos key

module _ {fl : Floats} where
  pos_of-insert :
      (key j : String) (p : Pos fl) (d : Dict (Pos fl))
      → pos_or_flat (lookup j (insert key p d))
        ≡ (if str_eq key j then p else pos_or_flat (lookup j d))
  pos_of-insert key j p d = elim (Bool-cases (str_eq key j)) [
    | inl y ↦ rw (lookup-insert key j p d, y) refl
    | inr n ↦ rw (lookup-insert key j p d, n) refl
  ]

  flat_where_none :
      (key j : String) (d : Dict (Pos fl))
      → lookup key d ≡ none
      → pos_or_flat (lookup j (insert key (pos_or_flat none) d)) ≡ pos_or_flat (lookup j d)
  flat_where_none key j d h =
      pos_of-insert key j (pos_or_flat none) d ∙ elim (Bool-cases (str_eq key j)) [
        | inl y ↦ rw y (
            subst (λ i. pos_or_flat none ≡ pos_or_flat (lookup i d)) ((eq_iff key j).0 y)
              (sym (ap pos_or_flat h)))
        | inr n ↦ rw n refl
      ]

  pos_of-set_default :
      (key j : String) (d : Dict (Pos fl))
      → pos_or_flat (lookup j (set_default key (pos_or_flat none) d)) ≡ pos_or_flat (lookup j d)
  pos_of-set_default key j d = elim (Option-cases (lookup key d)) [
    | inl n ↦ rw (n, set_default) (flat_where_none key j d n)
    | inr (p, s) ↦ rw (s, set_default) refl
  ]

  -- One fill: the books with a slot for the order are the same books, and the fill is entered in them.
  book-IsSame :
      (o : Order fl) (q : QuoteEvent fl) (price comm : fl.Float) (b : PaperBroker fl) (k : Books fl)
      → IsSame b k
      → IsSame (book o price comm b) (enter (booked (paper_fill o price comm q)) k)
  unfolding book
  book-IsSame o q price comm b k s =
      let qd = order_quantity o in
      let key = o.instrument.key in
      let mult = o.instrument.multiplier in
      record {
        same_cash =
            ap (λ c. fl.minus (fl.minus c (fl.times (fl.times price qd) mult)) comm) s.same_cash;
        same_realized =
            ap (λ r. realized (pos_of key b) qd price mult comm r) s.same_realized
            ∙ ap (λ p. realized p qd price mult comm k.realized_pnl) (s.same_pos key);
        same_pos = λ j.
            pos_of-insert key j (moved (pos_of key b) qd price) b.positions
            ∙ ap (λ p. if str_eq key j then moved p qd price else pos_of j b) (s.same_pos key)
            ∙ ap (λ p. if str_eq key j then moved (k.pos key) qd price else p) (s.same_pos j);
      }

  with_slot-IsSame :
      (o : Order fl) (b : PaperBroker fl) (k : Books fl) → IsSame b k → IsSame (with_slot o b) k
  with_slot-IsSame o b k s = record {
    same_cash = s.same_cash;
    same_realized = s.same_realized;
    same_pos = λ j. pos_of-set_default o.instrument.key j b.positions ∙ s.same_pos j;
  }

  -- The outcome of an order: its books are the old ones with the fill that it reports.
  abbrev IsReported : OrderResult fl × PaperBroker fl → Books fl → Type 0
  IsReported t k = IsSame t.1 (enter_all (reported t.0.fill) k)

  module _ (o : Order fl) (b : PaperBroker fl) (k : Books fl) (s : IsSame b k) where
    fill_at-IsReported : (price : fl.Float) (q : QuoteEvent fl) → IsReported (fill_at o price q b) k
    unfolding fill_at
    fill_at-IsReported price q =
        let b' = with_slot o b in
        let comm = commission b' o.quantity price o.instrument.multiplier in
        elim (Bool-cases (is_invalid fl comm)) [
          | inl y ↦ rw y (with_slot-IsSame o b k s)
          | inr n ↦ rw n (book-IsSame o q price comm b' k (with_slot-IsSame o b k s))
        ]

    fill_if_marketable-IsReported :
        (price : Option fl.Float) (q : QuoteEvent fl)
        → IsReported (fill_if_marketable o price q b) k
    fill_if_marketable-IsReported none q = s
    fill_if_marketable-IsReported (some price) q = fill_at-IsReported price q

    place_at-IsReported : (q : Option (QuoteEvent fl)) → IsReported (place_at o q b) k
    unfolding place_at
    place_at-IsReported none = s
    place_at-IsReported (some q) = elim (Bool-cases (is_invalid fl q.bid || is_invalid fl q.ask)) [
      | inl y ↦ rw y s
      | inr n ↦ rw n (elim (Bool-cases (is_invalid fl (fill_price b o q))) [
        | inl y ↦ rw y s
        | inr m ↦ rw m (fill_if_marketable-IsReported (marketable o (fill_price b o q)) q)
      ])
    ]

    place_order_locked-IsReported : IsReported (place_order_locked o b) k
    unfolding place_order_locked
    place_order_locked-IsReported = elim (Bool-cases (not b.connected)) [
      | inl y ↦ rw y s
      | inr n ↦
          rw n
            (elim (Bool-cases
              (not (fl.is_finite o.quantity) || fl.less_or_equal o.quantity (fl.whole 0))) [
                | inl y ↦ rw y s
                | inr m ↦ rw m (place_at-IsReported (lookup o.instrument.key b.quotes))
              ])
    ]

  broker_call-IsSame :
      (c : BrokerCall fl) (b : PaperBroker fl) (k : Books fl)
      → IsSame b k
      → IsSame (broker_call c b).1 (enter_all (broker_call c b).0 k)
  unfolding broker_call set_quote set_liquidity credit_cash adjust_position connect disconnect
  broker_call-IsSame (place_call o) b k s = place_order_locked-IsReported o b k s
  broker_call-IsSame (set_quote_call q) b k s = record {
    same_cash = s.same_cash;
    same_realized = s.same_realized;
    same_pos = s.same_pos;
  }
  broker_call-IsSame (set_liquidity_call key adv) b k s = record {
    same_cash = s.same_cash;
    same_realized = s.same_realized;
    same_pos = s.same_pos;
  }
  broker_call-IsSame (credit_cash_call amount) b k s = record {
    same_cash = ap (λ c. fl.plus c amount) s.same_cash;
    same_realized = s.same_realized;
    same_pos = s.same_pos;
  }
  broker_call-IsSame (adjust_position_call i q avg) b k s = record {
    same_cash = s.same_cash;
    same_realized = s.same_realized;
    same_pos = λ j.
        pos_of-insert i.key j (record { qty = q; avg = avg }) b.positions
        ∙ ap (λ p. if str_eq i.key j then record { qty = q; avg = avg } else p) (s.same_pos j);
  }
  broker_call-IsSame connect_call b k s = record {
    same_cash = s.same_cash;
    same_realized = s.same_realized;
    same_pos = s.same_pos;
  }
  broker_call-IsSame disconnect_call b k s = record {
    same_cash = s.same_cash;
    same_realized = s.same_realized;
    same_pos = s.same_pos;
  }

  enter_all-++ :
      (es fs : List (Entry fl)) (k : Books fl)
      → enter_all (es ++ fs) k ≡ enter_all fs (enter_all es k)
  enter_all-++ [] fs k = refl
  enter_all-++ (e ∷ es) fs k = enter_all-++ es fs (enter e k)

  replayed_from :
      (calls : List (BrokerCall fl)) (b : PaperBroker fl) (k : Books fl)
      → IsSame b k
      → IsSame (broker_calls calls b).1 (enter_all (broker_calls calls b).0 k)
  unfolding broker_calls
  replayed_from [] b k s = s
  replayed_from (c ∷ calls) b k s =
      let (here, b') = broker_call c b in
      let (rest, b'') = broker_calls calls b' in
      subst (IsSame b'') (sym (enter_all-++ here rest k))
        (replayed_from calls b' (enter_all here k) (broker_call-IsSame c b k s))

  -- Over any orders, quotes, liquidities, credits, adjustments, connections and disconnections, the cash, the
  -- realized amount and the position under every key are what the fills that the broker reports, with the credits and
  -- adjustments, yield in order from the books at the start: an order that is refused or not marketable changes
  -- none of them.
  pub broker_calls-IsSame :
      (calls : List (BrokerCall fl)) (b : PaperBroker fl)
      → IsSame (broker_calls calls b).1 (enter_all (broker_calls calls b).0 (books_of b))
  broker_calls-IsSame calls b =
      replayed_from calls b (books_of b)
        (record { same_cash = refl; same_realized = refl; same_pos = λ key. refl })
