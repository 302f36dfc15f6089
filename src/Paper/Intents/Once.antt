-- ===== src/Paper/Intents/Once.antt =====
-- An intent that is asked for twice.
use aitrading.Common.{
  ℕ, Bool, true, false, not, String, List, [], ◌∷◌, ◌≡◌, refl, sym, ap, ◌∙◌, subst, arith,
}
use aitrading.Paper.Orders.{PaperOrderRow, PaperStore, EventHash}
use aitrading.Paper.Runs.{PaperRunRow}
use aitrading.Paper.Money.{ok, >>=-ok, raise_if-ok, ok-injective}
use aitrading.Paper.Intents.{
  IntentExtern, IntentView, IntentRequest, IntentTerms, checked_intent, admit_intent, insert_intent,
  resolved, matches, is_expected, is_intent_refused, get_or_create_paper_intent,
}

pub intent-stages :
    (x : IntentExtern) (view : IntentView) (q : IntentRequest) (now : ℕ) (s : PaperStore)
    (o : PaperOrderRow) (s' : PaperStore)
    → get_or_create_paper_intent x view q now s ≡ ok (o, s')
    → (t : IntentTerms) × (run : PaperRunRow) × (checked_intent x q ≡ ok t)
      × (admit_intent x view t ≡ ok run)
      × (s'
          ≡ insert_intent x.event_hash t
              (x.request_hash t run.config_checksum)
              now
              (matches t s.orders)
              s)
      × (resolved t (x.request_hash t run.config_checksum) (matches t s'.orders) ≡ ok o)
unfolding get_or_create_paper_intent
intent-stages x view q now s o s' h =
    let (t, checked, h1) = >>=-ok (checked_intent x q) _ (o, s') h in
    let (run, admitted, h1') = >>=-ok (admit_intent x view t) _ (o, s') h1 in
    let (_, h2) =
      raise_if-ok (is_intent_refused x.event_hash t (matches t s.orders) s) _ _ (o, s') h1' in
    let checksum = x.request_hash t run.config_checksum in
    let after = insert_intent x.event_hash t checksum now (matches t s.orders) s in
    let (p, found, h3) = >>=-ok (resolved t checksum (matches t after.orders)) _ (o, s') h2 in
    let s_eq = sym (ap (λ p. p.1) (ok-injective h3)) in
    let o_eq = ap (λ p. p.0) (ok-injective h3) in
    (
      t,
      run,
      checked,
      admitted,
      s_eq,
      subst (λ (s : PaperStore). resolved t checksum (matches t s.orders) ≡ ok o) (sym s_eq)
          (found ∙ ap ok o_eq),
    )

-- Where the identities resolve to an order, they have one row.
pub resolved-one :
    (t : IntentTerms) (checksum : String) (found : List PaperOrderRow) (o : PaperOrderRow)
    → resolved t checksum found ≡ ok o
    → (found ≡ o ∷ []) × (is_expected t checksum o ≡ true)
unfolding resolved
resolved-one t checksum [] o h = ground arith
resolved-one t checksum (p ∷ []) o h =
    let (same, e) = raise_if-ok (not (is_expected t checksum p)) _ (ok p) o h in
    (
      ap (λ p. p ∷ []) (ok-injective e),
      subst (λ p. is_expected t checksum p ≡ true) (ok-injective e) (not_false _ same),
    )
  where
    not_false : (b : Bool) → not b ≡ false → b ≡ true
    not_false true h = refl
    not_false false h = ground arith
resolved-one t checksum (p ∷ q ∷ rest) o h = ground arith

insert_intent-found :
    (hash : EventHash) (t : IntentTerms) (checksum : String) (now : ℕ) (found : List PaperOrderRow)
    (o : PaperOrderRow) (s : PaperStore)
    → found ≡ o ∷ []
    → insert_intent hash t checksum now found s ≡ s
unfolding insert_intent
insert_intent-found hash t checksum now found o s e = rw e refl

not_refused :
    (hash : EventHash) (t : IntentTerms) (found : List PaperOrderRow) (o : PaperOrderRow)
    (s : PaperStore)
    → found ≡ o ∷ []
    → is_intent_refused hash t found s ≡ false
not_refused hash t found o s e = rw e refl

intent-found :
    (x : IntentExtern) (view : IntentView) (q : IntentRequest) (now : ℕ) (s : PaperStore)
    (o : PaperOrderRow) (t : IntentTerms) (run : PaperRunRow)
    → checked_intent x q ≡ ok t
    → admit_intent x view t ≡ ok run
    → is_intent_refused x.event_hash t (matches t s.orders) s ≡ false
    → insert_intent x.event_hash t (x.request_hash t run.config_checksum) now (matches t s.orders) s
      ≡ s
    → resolved t (x.request_hash t run.config_checksum) (matches t s.orders) ≡ ok o
    → get_or_create_paper_intent x view q now s ≡ ok (o, s)
unfolding get_or_create_paper_intent
intent-found x view q now s o t run checked admitted free kept found =
    rw (checked, admitted) (rw free (rw (kept, found) refl))

-- An intent that was asked for and given is given again, the same row, when it is asked for at any later time with
-- the same run and risk configuration, and the orders and events do not change.
pub intent-intent :
    (x : IntentExtern) (view : IntentView) (q : IntentRequest) (now later : ℕ) (s : PaperStore)
    (o : PaperOrderRow) (s' : PaperStore)
    → get_or_create_paper_intent x view q now s ≡ ok (o, s')
    → get_or_create_paper_intent x view q later s' ≡ ok (o, s')
intent-intent x view q now later s o s' h =
    let (t, run, checked, admitted, _, found) = intent-stages x view q now s o s' h in
    let checksum = x.request_hash t run.config_checksum in
    let (one, _) = resolved-one t checksum (matches t s'.orders) o found in
    intent-found x view q later s' o t run checked admitted
      (not_refused x.event_hash t (matches t s'.orders) o s' one)
      (insert_intent-found x.event_hash t checksum later (matches t s'.orders) o s' one) found
