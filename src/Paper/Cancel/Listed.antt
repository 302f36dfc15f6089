-- ===== src/Paper/Cancel/Listed.antt =====
-- The open orders that a bulk cancellation lists, src/atp/store/base.py: all of them, each once.
use text.Mathlib.Text.{◌==◌ as str_eq}
use text.Mathlib.TextEquality.{eq_iff}
use aitrading.Common.{
  Bool, true, false, ◌||◌, ◌&&◌, some, String, List, [], ◌∷◌, ◌≡◌, refl, arith, if◌then◌else◌,
}
use aitrading.Common.Dict.{Dict, lookup}
use aitrading.Paper.Orders.{PaperOrderRow}
use aitrading.Paper.Cancel.{is_open, place_row, open_orders}

abbrev pub has_id : String → List PaperOrderRow → Bool
has_id id [] = false
has_id id (o ∷ os) = str_eq o.client_order_id id || has_id id os

abbrev pub has_key : String → Dict PaperOrderRow → Bool
has_key k [] = false
has_key k ((j, o) ∷ d) = str_eq j k || has_key k d

-- A table: every row is under its identifier, once.
abbrev pub IsKeyed : Dict PaperOrderRow → Type 0
IsKeyed [] = Unit {0}
IsKeyed ((k, o) ∷ d) = (o.client_order_id ≡ k) × (has_key k d ≡ false) × IsKeyed d

abbrev pub Apart : List PaperOrderRow → Type 0
Apart [] = Unit {0}
Apart (o ∷ os) = (has_id o.client_order_id os ≡ false) × Apart os

abbrev pub Stored : Dict PaperOrderRow → List PaperOrderRow → Type 0
Stored d [] = Unit {0}
Stored d (o ∷ os) = (lookup o.client_order_id d ≡ some o) × Stored d os

-- The open orders of the run are among the listed ones.
abbrev pub covered : (run_id : String) → List PaperOrderRow → Dict PaperOrderRow → Bool
covered run_id os [] = true
covered run_id os ((k, o) ∷ d) =
    (if str_eq o.run_id run_id && is_open o.state then has_id o.client_order_id os else true)
    && covered run_id os d

-- The run has an open order.
abbrev pub has_open : (run_id : String) → Dict PaperOrderRow → Bool
has_open run_id [] = false
has_open run_id ((k, o) ∷ d) = str_eq o.run_id run_id && is_open o.state || has_open run_id d

has_id-place_row :
    (tb : String → String → Bool) (id : String) (o : PaperOrderRow) (os : List PaperOrderRow)
    → has_id id (place_row tb o os) ≡ str_eq o.client_order_id id || has_id id os
has_id-place_row tb id o [] = refl
has_id-place_row tb id o (p ∷ os) = ground (arith, has_id-place_row tb id o os)

place_row-Apart :
    (tb : String → String → Bool) (o : PaperOrderRow) (os : List PaperOrderRow)
    → has_id o.client_order_id os ≡ false
    → Apart os
    → Apart (place_row tb o os)
place_row-Apart tb o [] h a = (refl, tt)
place_row-Apart tb o (p ∷ os) h a = ground (
  arith,
  place_row-Apart tb o os,
  has_id-place_row tb p.client_order_id o os,
  eq_iff o.client_order_id p.client_order_id,
  eq_iff p.client_order_id o.client_order_id,
)

place_row-Stored :
    (tb : String → String → Bool) (d : Dict PaperOrderRow) (o : PaperOrderRow)
    (os : List PaperOrderRow)
    → lookup o.client_order_id d ≡ some o
    → Stored d os
    → Stored d (place_row tb o os)
place_row-Stored tb d o [] h s = (h, tt)
place_row-Stored tb d o (p ∷ os) h s = ground (arith, place_row-Stored tb d o os)

open_orders-has_id :
    (tb : String → String → Bool) (run_id k : String) (d : Dict PaperOrderRow)
    → IsKeyed d
    → has_key k d ≡ false
    → has_id k (open_orders tb run_id d) ≡ false
unfolding open_orders
open_orders-has_id tb run_id k [] keyed h = refl
open_orders-has_id tb run_id k ((j, o) ∷ d) keyed h =
    ground
      (arith, open_orders-has_id tb run_id k d, has_id-place_row tb k o (open_orders tb run_id d))

pub open_orders-Apart :
    (tb : String → String → Bool) (run_id : String) (d : Dict PaperOrderRow)
    → IsKeyed d
    → Apart (open_orders tb run_id d)
unfolding open_orders
open_orders-Apart tb run_id [] keyed = tt
open_orders-Apart tb run_id ((k, o) ∷ d) keyed = ground (
  arith,
  open_orders-Apart tb run_id d,
  open_orders-has_id tb run_id k d,
  place_row-Apart tb o (open_orders tb run_id d),
)

Stored-cons :
    (k : String) (v : PaperOrderRow) (d : Dict PaperOrderRow) (os : List PaperOrderRow)
    → has_id k os ≡ false
    → Stored d os
    → Stored ((k, v) ∷ d) os
unfolding lookup
Stored-cons k v d [] h s = tt
Stored-cons k v d (o ∷ os) h s =
    ground (arith, Stored-cons k v d os, eq_iff k o.client_order_id, eq_iff o.client_order_id k)

pub open_orders-Stored :
    (tb : String → String → Bool) (run_id : String) (d : Dict PaperOrderRow)
    → IsKeyed d
    → Stored d (open_orders tb run_id d)
unfolding open_orders lookup
open_orders-Stored tb run_id [] keyed = tt
open_orders-Stored tb run_id ((k, o) ∷ d) keyed =
    let os = open_orders tb run_id d in
    let here : lookup o.client_order_id ((k, o) ∷ d) ≡ some o = rw (keyed.0, same_key k) refl in
    let rest =
      Stored-cons k o d os (open_orders-has_id tb run_id k d keyed.2 keyed.1)
        (open_orders-Stored tb run_id d keyed.2) in
    either_Stored (str_eq o.run_id run_id && is_open o.state) os
      (place_row-Stored tb ((k, o) ∷ d) o os here rest) rest
  where
    same_key : (k : String) → str_eq k k ≡ true
    same_key k = ground (arith, eq_iff k k)

    either_Stored :
        (test : Bool) (os : List PaperOrderRow)
        → Stored ((k, o) ∷ d) (place_row tb o os)
        → Stored ((k, o) ∷ d) os
        → Stored ((k, o) ∷ d) (if test then place_row tb o os else os)
    either_Stored true os a b = a
    either_Stored false os a b = b

covered-place_row :
    (tb : String → String → Bool) (run_id : String) (o : PaperOrderRow) (os : List PaperOrderRow)
    (d : Dict PaperOrderRow)
    → covered run_id os d ≡ true
    → covered run_id (place_row tb o os) d ≡ true
covered-place_row tb run_id o os [] h = refl
covered-place_row tb run_id o os ((k, p) ∷ d) h =
    ground (arith, covered-place_row tb run_id o os d, has_id-place_row tb p.client_order_id o os)

pub open_orders-covered :
    (tb : String → String → Bool) (run_id : String) (d : Dict PaperOrderRow)
    → covered run_id (open_orders tb run_id d) d ≡ true
unfolding open_orders
open_orders-covered tb run_id [] = refl
open_orders-covered tb run_id ((k, o) ∷ d) = ground (
  arith,
  open_orders-covered tb run_id d,
  covered-place_row tb run_id o (open_orders tb run_id d) d,
  has_id-place_row tb o.client_order_id o (open_orders tb run_id d),
  eq_iff o.client_order_id o.client_order_id,
)
