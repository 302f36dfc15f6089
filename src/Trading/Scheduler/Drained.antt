-- ===== src/Trading/Scheduler/Drained.antt =====
-- The ticks of src/atp/execution/scheduler.py come to an end: each releases or drops a slice of every working order.
use text.Mathlib.Text.{◌==◌ as str_eq}
use text.Mathlib.TextEquality.{eq_iff}
use aitrading.Common.{
  ℕ, ◌+◌, ◌≤◌, Bool, true, false, ◌||◌, List, [], ◌∷◌, Option, none, some, String, if◌then◌else◌,
  ◌≡◌, refl, sym, ◌∙◌, subst, ◌≢◌, ◌⊎◌, inl, inr, Bool-cases, Option-cases, arith,
}
use aitrading.Common.Dict.{Dict, lookup, lookup-insert_ne, lookup-insert_self}
use aitrading.Common.Floats.{Floats}
use aitrading.Common.Maybe.{some-injective}
use aitrading.Trading.Execution.{ExecutionEngine, World, was_filled}
use aitrading.Trading.Execution.Submit.{submit_authorized}
use aitrading.Trading.Scheduler.{WorkingOrder, ExecutionScheduler, without, has_work, is_nonempty}
use aitrading.Trading.Scheduler.Ticks.{
  Tick, Progress, advanced, release, release_at, child_of, tick_over, keys_of, tick,
}

abbrev pub length : {A : Type 0} → List A → ℕ
length [] = 0
length (_ ∷ xs) = length xs + 1

abbrev is_in : String → List String → Bool
is_in k [] = false
is_in k (j ∷ keys) = str_eq j k || is_in k keys

module _ (fl : Floats) where
  lookup-without :
      {A : Type 0} (k j : String) (d : Dict A)
      → lookup j (without fl k d) ≡ (if str_eq k j then none else lookup j d)
  unfolding lookup
  lookup-without k j [] = ground arith
  lookup-without k j ((i, w) ∷ d) =
      ground (arith, eq_iff k j, eq_iff i k, eq_iff i j, lookup-without k j d)

  lookup-without_self : {A : Type 0} (k : String) (d : Dict A) → lookup k (without fl k d) ≡ none
  lookup-without_self k d = ground (arith, eq_iff k k, lookup-without k k d)

  lookup-without_ne :
      {A : Type 0} (k j : String) (d : Dict A) → k ≢ j → lookup j (without fl k d) ≡ lookup j d
  lookup-without_ne k j d h = ground (arith, eq_iff k j, lookup-without k j d)

  is_in-keys_of :
      {A : Type 0} (k : String) (v : A) (d : Dict A)
      → lookup k d ≡ some v
      → is_in k (keys_of fl d) ≡ true
  unfolding lookup
  is_in-keys_of k v [] h = ground arith
  is_in-keys_of k v ((j, w) ∷ d) h = ground (arith, is_in-keys_of k v d)

  -- No working order has more than n slices.
  abbrev pub IsWithin : ℕ → Dict (WorkingOrder fl) → Type 0
  IsWithin n d = (key : String) (w : WorkingOrder fl) → lookup key d ≡ some w → length w.slices ≤ n

  -- The working order of a key, if there is one, has between one and n slices.
  abbrev IsLive : ℕ → Dict (WorkingOrder fl) → String → Type 0
  IsLive n d key =
      (w : WorkingOrder fl) → lookup key d ≡ some w → (1 ≤ length w.slices) × (length w.slices ≤ n)

  gone-IsLive :
      (n : ℕ) (d : Dict (WorkingOrder fl)) (key : String) → lookup key d ≡ none → IsLive n d key
  gone-IsLive n d key g w h = ground arith

  module _ (key : String) (w : WorkingOrder fl) (q : fl.Float) where
    advanced-ne :
        (slices : List fl.Float) (filled : Bool) (d : Dict (WorkingOrder fl)) (j : String)
        → key ≢ j
        → lookup j (advanced fl key w q slices filled d) ≡ lookup j d
    advanced-ne [] filled d j h = lookup-without_ne key j d h
    advanced-ne (r ∷ rest) true d j h = lookup-insert_ne key j _ d h
    advanced-ne (r ∷ rest) false d j h = lookup-without_ne key j d h

    advanced-IsLive :
        (n : ℕ) (slices : List fl.Float) (filled : Bool) (d : Dict (WorkingOrder fl))
        → length slices ≤ n
        → IsLive n (advanced fl key w q slices filled d) key
    advanced-IsLive n [] filled d b v h = gone-IsLive n _ key (lookup-without_self key d) v h
    advanced-IsLive n (r ∷ rest) false d b v h = gone-IsLive n _ key (lookup-without_self key d) v h
    advanced-IsLive n (r ∷ rest) true d b v h =
        subst (λ (x : WorkingOrder fl). (1 ≤ length x.slices) × (length x.slices ≤ n))
          (some-injective (sym (lookup-insert_self key _ d) ∙ h)) (omega arith, b)

  module _ (e : ExecutionEngine fl) (t : Tick fl) where
    release-ne :
        (key j : String) (w : WorkingOrder fl) (slices : List fl.Float) (p : Progress fl)
        → key ≢ j
        → lookup j (release fl e t key w slices p).working ≡ lookup j p.working
    release-ne key j w [] p h = lookup-without_ne key j p.working h
    release-ne key j w (q ∷ slices) p h =
        advanced-ne key w q slices
          (was_filled (submit_authorized e (child_of fl t key w q) p.world).0.result) p.working j h

    release_at-ne :
        (key j : String) (o : Option (WorkingOrder fl)) (p : Progress fl)
        → key ≢ j
        → lookup j (release_at fl e t key o p).working ≡ lookup j p.working
    release_at-ne key j none p h = refl
    release_at-ne key j (some w) p h = release-ne key j w w.slices p h

    release-IsLive :
        (n : ℕ) (key : String) (w : WorkingOrder fl) (slices : List fl.Float) (p : Progress fl)
        → length slices ≤ n + 1
        → IsLive n (release fl e t key w slices p).working key
    release-IsLive n key w [] p b = gone-IsLive n _ key (lookup-without_self key p.working)
    release-IsLive n key w (q ∷ slices) p b =
        advanced-IsLive key w q n slices
          (was_filled (submit_authorized e (child_of fl t key w q) p.world).0.result) p.working
          (omega arith)

    release_at-IsLive :
        (n : ℕ) (key : String) (o : Option (WorkingOrder fl)) (p : Progress fl)
        → IsWithin (n + 1) p.working
        → lookup key p.working ≡ o
        → IsLive n (release_at fl e t key o p).working key
    release_at-IsLive n key none p b h = gone-IsLive n p.working key h
    release_at-IsLive n key (some w) p b h = release-IsLive n key w w.slices p (b key w h)

    abbrev released_at : String → Progress fl → Progress fl
    released_at key p = release_at fl e t key (lookup key p.working) p

    released_at-kept :
        (n : ℕ) (key j : String) (p : Progress fl)
        → IsWithin (n + 1) p.working
        → (str_eq key j ≡ true) ⊎ IsLive n p.working j
        → IsLive n (released_at key p).working j
    released_at-kept n key j p b c = elim (Bool-cases (str_eq key j)) [
      | inl y ↦
          subst (IsLive n (released_at key p).working) ((eq_iff key j).0 y)
            (release_at-IsLive n key (lookup key p.working) p b refl)
      | inr m ↦ elim c [
        | inl y ↦ ground arith
        | inr live ↦ λ w h. live w (
            sym
              (release_at-ne key j (lookup key p.working) p (λ same. ground (arith, eq_iff key j)))
            ∙ h)
      ]
    ]

    released_at-IsWithin :
        (n : ℕ) (key : String) (p : Progress fl)
        → IsWithin (n + 1) p.working
        → IsWithin (n + 1) (released_at key p).working
    released_at-IsWithin n key p b j w h = elim (Bool-cases (str_eq key j)) [
      | inl y ↦ let (_, at_most) = released_at-kept n key j p b (inl y) w h in omega arith
      | inr m ↦ b j w (
          sym (release_at-ne key j (lookup key p.working) p (λ same. ground (arith, eq_iff key j)))
          ∙ h)
    ]

    tick_over-IsLive :
        (n : ℕ) (keys : List String) (p : Progress fl) (j : String)
        → IsWithin (n + 1) p.working
        → (is_in j keys ≡ true) ⊎ IsLive n p.working j
        → IsLive n (tick_over fl e t keys p).working j
    unfolding tick_over
    tick_over-IsLive n [] p j b (inl m) = ground arith
    tick_over-IsLive n [] p j b (inr live) = live
    tick_over-IsLive n (key ∷ keys) p j b c =
        tick_over-IsLive n keys (released_at key p) j (released_at-IsWithin n key p b) (elim c [
          | inl m ↦ elim (Bool-cases (str_eq key j)) [
            | inl y ↦ inr (released_at-kept n key j p b (inl y))
            | inr other ↦ inl (ground arith)
          ]
          | inr live ↦ inr (released_at-kept n key j p b (inr live))
        ])

    tick-IsLive :
        (n : ℕ) (s : ExecutionScheduler fl) (world : World fl) (j : String)
        → IsWithin (n + 1) s.working
        → IsLive n (tick fl e t s world).1.working j
    unfolding tick
    tick-IsLive n s world j b =
        tick_over-IsLive n (keys_of fl s.working) _ j b (elim (Option-cases (lookup j s.working)) [
          | inl gone ↦ inr (gone-IsLive n s.working j gone)
          | inr (w, found) ↦ inl (is_in-keys_of j w s.working found)
        ])

  -- Ticks in a row, each of an engine of its own.
  abbrev pub tick_all :
      List (ExecutionEngine fl × Tick fl)
      → ExecutionScheduler fl
      → World fl
      → ExecutionScheduler fl × World fl
  tick_all [] s world = (s, world)
  tick_all ((e, t) ∷ ticks) s world =
      let (_, s', world') = tick fl e t s world in tick_all ticks s' world'

  all_gone :
      (d : Dict (WorkingOrder fl)) → ((key : String) → IsLive 0 d key) → is_nonempty fl d ≡ false
  unfolding lookup
  all_gone [] live = refl
  all_gone ((key, w) ∷ d) live =
      let (least, most) = live key w (ground (arith, eq_iff key key)) in ground arith

  -- After as many ticks as the longest working order has slices, at least one, the scheduler has no work left, whatever the
  -- risk engine, the guards, the prices and the broker answer at each of them.
  pub tick_all-drained :
      (e : ExecutionEngine fl) (t : Tick fl) (ticks : List (ExecutionEngine fl × Tick fl))
      (s : ExecutionScheduler fl) (world : World fl)
      → IsWithin (length ticks + 1) s.working
      → has_work fl (tick_all ((e, t) ∷ ticks) s world).0 ≡ false
  tick_all-drained e t [] s world b =
      all_gone (tick fl e t s world).1.working (λ key. tick-IsLive e t 0 s world key b)
  tick_all-drained e t ((e', t') ∷ ticks) s world b =
      tick_all-drained e' t' ticks (tick fl e t s world).1 (tick fl e t s world).2
        (λ key w h. let (_, most) = tick-IsLive e t (length ticks + 1) s world key b w h in most)
