-- ===== src/Paper/Orders/Final.antt =====
-- The final states of the orders of the paper canary, src/atp/store/base.py.
use text.Mathlib.Text.{◌==◌ as str_eq}
use text.Mathlib.TextEquality.{eq_iff}
use aitrading.Common.{
  ℕ, Bool, true, false, ◌&&◌, List, [], ◌∷◌, Option, none, some, String, ◌==◌, ◌≡◌, ◌≢◌, refl, sym,
  ◌∙◌, subst, arith, Bool-cases, inl, inr,
}
use aitrading.Common.Dict.{lookup, lookup-insert_ne}
use aitrading.Paper.Orders.{
  PaperState, rejected, cancelled, filled, PaperOrderRow, PaperStore, is_empty_text, EventHash,
  TransitionRequest, allowed, same_state, updated, is_event_taken, swapped, transition_paper_order,
}
use aitrading.Paper.Orders.Log.{transition_each}

-- The state of an order that no transition leaves.
abbrev pub is_closed : PaperState → Bool
is_closed rejected = true
is_closed cancelled = true
is_closed filled = true
is_closed _ = false

closed_does_not_match :
    (at from to : PaperState) (x : Bool)
    → is_closed at ≡ true
    → allowed from to ≡ true
    → (same_state at from && x) ≡ false
unfolding allowed
closed_does_not_match at from to x c a = ground arith

swapped_elsewhere :
    (hash : EventHash) (r : TransitionRequest) (now : ℕ) (found : Option PaperOrderRow)
    (s : PaperStore) (id : String)
    → r.client_order_id ≢ id
    → lookup id (swapped hash r now found s).1.orders ≡ lookup id s.orders
unfolding swapped
swapped_elsewhere hash r now none s id ne = refl
swapped_elsewhere hash r now (some o) s id ne =
    elim (Bool-cases (same_state o.state r.expected_status && (o.version == r.expected_version))) [
      | inl hit ↦ elim (Bool-cases (is_event_taken hash r.client_order_id r.new_status s.events)) [
        | inl taken ↦ rw hit (rw taken refl)
        | inr free ↦
            rw hit (rw free (lookup-insert_ne r.client_order_id id (updated r now o) s.orders ne))
      ]
      | inr missed ↦ rw missed refl
    ]

swapped_closed :
    (hash : EventHash) (r : TransitionRequest) (now : ℕ) (s : PaperStore) (o : PaperOrderRow)
    → lookup r.client_order_id s.orders ≡ some o
    → is_closed o.state ≡ true
    → allowed r.expected_status r.new_status ≡ true
    → (swapped hash r now (lookup r.client_order_id s.orders) s).1 ≡ s
unfolding swapped
swapped_closed hash r now s o e c a = rw e (
    rw
      (closed_does_not_match o.state r.expected_status r.new_status
        (o.version == r.expected_version) c a)
      refl)

swapped_keeps :
    (hash : EventHash) (r : TransitionRequest) (now : ℕ) (s : PaperStore) (id : String)
    (o : PaperOrderRow)
    → lookup id s.orders ≡ some o
    → is_closed o.state ≡ true
    → allowed r.expected_status r.new_status ≡ true
    → lookup id (swapped hash r now (lookup r.client_order_id s.orders) s).1.orders ≡ some o
swapped_keeps hash r now s id o e c a = elim (Bool-cases (str_eq r.client_order_id id)) [
  | inl same ↦
      let k = (eq_iff r.client_order_id id).0 same in
      let found = subst (λ i. lookup i s.orders ≡ some o) (sym k) e in
      subst (λ t. lookup id t.orders ≡ some o) (sym (swapped_closed hash r now s o found c a)) e
  | inr other ↦
      swapped_elsewhere hash r now (lookup r.client_order_id s.orders) s id
        (λ k. ground (arith, eq_iff r.client_order_id id, k))
      ∙ e
]

closed_is_kept :
    (hash : EventHash) (r : TransitionRequest) (now : ℕ) (s : PaperStore) (id : String)
    (o : PaperOrderRow)
    → lookup id s.orders ≡ some o
    → is_closed o.state ≡ true
    → lookup id (transition_paper_order hash r now s).1.orders ≡ some o
unfolding transition_paper_order
closed_is_kept hash r now s id o e c = elim (Bool-cases (allowed r.expected_status r.new_status)) [
  | inl legal ↦ elim (Bool-cases (is_empty_text r.broker_order_id)) [
    | inl blank ↦ rw legal (rw blank e)
    | inr given ↦ rw legal (rw given (swapped_keeps hash r now s id o e c legal))
  ]
  | inr illegal ↦ rw illegal e
]

-- A FILLED, REJECTED or CANCELLED order is final: over any transitions of any orders its row stays as it is.
pub closed_is_final :
    (hash : EventHash) (calls : List (TransitionRequest × ℕ)) (s : PaperStore) (id : String)
    (o : PaperOrderRow)
    → lookup id s.orders ≡ some o
    → is_closed o.state ≡ true
    → lookup id (transition_each hash calls s).orders ≡ some o
unfolding transition_each
closed_is_final hash [] s id o e c = e
closed_is_final hash ((r, now) ∷ calls) s id o e c =
    closed_is_final hash calls (transition_paper_order hash r now s).1 id o
      (closed_is_kept hash r now s id o e c) c
