-- ===== src/Common/SortedKeys.antt =====
-- The distinct keys of dictionaries in their order, `sorted(set(a) | set(b))` of Python, and what holds of all of them.
use Prim.Native.Nat.{Ordering}
use Prim.Native.String.{compare}
use text.Mathlib.Text.{◌==◌ as str_eq}
use text.Mathlib.TextEquality.{eq_iff, path_by_compare}
use aitrading.Common.{List, [], ◌∷◌, some, String, ◌≡◌, refl, sym, Bool-cases, inl, inr, ◌↔◌, subst}
use aitrading.Common.Dict.{Dict, lookup}

-- Where a key goes that compares with the first of a list: before it, at it, or into the rest.
abbrev pub placed : Ordering → (k j : String) → (keys rest : List String) → List String
placed Ordering.lt k j keys rest = k ∷ j ∷ keys
placed Ordering.eq k j keys rest = j ∷ keys
placed Ordering.gt k j keys rest = j ∷ rest

-- A key into a sorted list of distinct keys.
abbrev pub insert_key : String → List String → List String
insert_key k [] = k ∷ []
insert_key k (j ∷ keys) = placed (compare k j) k j keys (insert_key k keys)

abbrev pub insert_keys : {V : Type 0} → Dict V → List String → List String
insert_keys [] keys = keys
insert_keys ((k, _) ∷ book) keys = insert_key k (insert_keys book keys)

abbrev pub All : (String → Type 0) → List String → Type 0
All P [] = Unit
All P (k ∷ keys) = P k × All P keys

module _ (P : String → Type 0) where
  All-placed :
      (o : Ordering) (k j : String) (keys rest : List String)
      → compare k j ≡ o
      → All P rest ↔ (P k × All P keys)
      → All P (placed o k j keys rest) ↔ (P k × P j × All P keys)
  All-placed Ordering.lt k j keys rest e h = ((λ t. (t.0, t.1.0, t.1.1)), (λ t. (t.0, (t.1, t.2))))
  All-placed Ordering.eq k j keys rest e h =
      ((λ t. (subst P (sym (path_by_compare k j e)) t.0, t.0, t.1)), (λ t. (t.1, t.2)))
  All-placed Ordering.gt k j keys rest e h =
      ((λ t. let (a, b) = h.0 t.1 in (a, t.0, b)), (λ t. (t.1, h.1 (t.0, t.2))))

  pub All-insert_key :
      (k : String) (keys : List String) → All P (insert_key k keys) ↔ (P k × All P keys)
  All-insert_key k [] = ((λ h. h), (λ h. h))
  All-insert_key k (j ∷ keys) =
      let (to, from) =
        All-placed (compare k j) k j keys (insert_key k keys) refl (All-insert_key k keys) in
      ((λ h. let (a, b, c) = to h in (a, (b, c))), (λ h. from (h.0, h.1.0, h.1.1)))

  -- What holds of every key of a book holds of each key that is found in it.
  pub All-lookup :
      {V : Type 0} (key : String) (q : V) (book : Dict V) (keys : List String)
      → All P (insert_keys book keys)
      → (lookup key book ≡ some q → P key) × All P keys
  unfolding lookup
  All-lookup key q [] keys h = ((λ e. cc), h)
  All-lookup key q ((k, v) ∷ book) keys h =
      let (here, rest) = (All-insert_key k (insert_keys book keys)).0 h in
      let (found, below) = All-lookup key q book keys rest in
      elim (Bool-cases (str_eq k key)) [
        | inl same ↦ ((λ e. subst P ((eq_iff k key).0 same) here), below)
        | inr other ↦ ((λ e. found (rw other at e)), below)
      ]

  -- A predicate that holds everywhere holds of all keys.
  pub everywhere-All : ((key : String) → P key) → (keys : List String) → All P keys
  everywhere-All h [] = tt
  everywhere-All h (k ∷ keys) = (h k, everywhere-All h keys)
