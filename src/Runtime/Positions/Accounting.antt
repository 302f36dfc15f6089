-- ===== src/Runtime/Positions/Accounting.antt =====
-- The accounting identity of one fill.
use aitrading.Common.{
  ℕ, zero, suc, ◌+◌, true, false, Option, some, ◌≡◌, sym, ap, ◌∙◌, arith, Bool-cases, inl, inr,
}
use aitrading.Common.Int.{
  ℤ, pos, negsuc, pos_part, neg_part, ◌+ℤ◌, ◌-ℤ◌, ◌*ℤ◌, leb_ℤ, eqb_ℤ, neg_ℤ, abs_ℤ, +ℤ_parts,
  eq_of_parts, -ℤ-*ℤ, int_laws, pos-+ℤ-pos, negsuc-+ℤ-negsuc, *ℤ-negsuc, neg_ℤ-+ℤ, *ℤ-zero, zero-*ℤ,
  zero-+ℤ, +ℤ-zero, *ℤ-+ℤ, neg_ℤ-neg_ℤ, neg_ℤ_parts,
}
use aitrading.Runtime.Positions.{
  FillRow, PositionRow, signed_quantity, quantity_of, average_of, realized_of, same_direction,
  weighted_average, reduced_average, realized_delta, apply_fill_to_position, unit,
}

module _ (divide : ℤ → ℤ → ℤ) (avg price : ℤ) where
  -- The weighted average of a fill comes out with no rounding.
  abbrev pub IsExact : (q s : ℤ) → Type 0
  IsExact q s =
      let n = q +ℤ s in
      divide (avg *ℤ abs_ℤ q +ℤ price *ℤ abs_ℤ s) (abs_ℤ n) *ℤ abs_ℤ n
      ≡ avg *ℤ abs_ℤ q +ℤ price *ℤ abs_ℤ s

  opened_cost :
      (q s : ℤ)
      → same_direction q s ≡ true
      → IsExact q s
      → weighted_average divide q avg s price *ℤ (q +ℤ s) ≡ avg *ℤ q +ℤ price *ℤ s
  opened_cost (pos a) (pos b) same exact = rw (pos-+ℤ-pos a b) (
      ground (
        arith,
        rw (pos-+ℤ-pos a b) at exact,
        *ℤ-zero avg,
        *ℤ-zero price,
        zero-*ℤ (pos (a + b)),
        pos-+ℤ-pos 0 0,
      ))
  opened_cost (pos zero) (negsuc b) same exact = rw (zero-+ℤ (negsuc b)) (
      ground (
        arith,
        rw (zero-+ℤ (negsuc b)) at exact,
        *ℤ-zero avg,
        *ℤ-negsuc price b,
        *ℤ-negsuc (divide (avg *ℤ pos 0 +ℤ price *ℤ pos (suc b)) (pos (suc b))) b,
        zero-+ℤ (price *ℤ negsuc b),
        zero-+ℤ (price *ℤ pos (suc b)),
      ))
  opened_cost (pos (suc a)) (negsuc b) same exact = absurd (ground arith)
  opened_cost (negsuc a) (pos zero) same exact = rw (+ℤ-zero (negsuc a)) (
      ground (
        arith,
        rw (+ℤ-zero (negsuc a)) at exact,
        *ℤ-zero price,
        *ℤ-negsuc avg a,
        *ℤ-negsuc (divide (avg *ℤ pos (suc a) +ℤ price *ℤ pos 0) (pos (suc a))) a,
        +ℤ-zero (avg *ℤ negsuc a),
        +ℤ-zero (avg *ℤ pos (suc a)),
      ))
  opened_cost (negsuc a) (pos (suc b)) same exact = absurd (ground arith)
  opened_cost (negsuc a) (negsuc b) same exact = rw (negsuc-+ℤ-negsuc a b) (
      ground (
        arith,
        rw (negsuc-+ℤ-negsuc a b) at exact,
        *ℤ-negsuc avg a,
        *ℤ-negsuc price b,
        neg_ℤ-+ℤ (avg *ℤ pos (suc a)) (price *ℤ pos (suc b)),
        *ℤ-negsuc (divide (avg *ℤ pos (suc a) +ℤ price *ℤ pos (suc b)) (pos (suc (suc (a + b)))))
            (suc (a + b)),
      ))

module _ (avg price q s : ℤ) where
  -- The cost basis less what was realized, when the average is kept.
  kept_cost : avg *ℤ (q +ℤ s) -ℤ neg_ℤ ((price -ℤ avg) *ℤ s) ≡ avg *ℤ q +ℤ price *ℤ s
  kept_cost =
      rw (*ℤ-+ℤ avg q s, -ℤ-*ℤ price avg s) (omega (int_laws, neg_ℤ_parts (price *ℤ s -ℤ avg *ℤ s)))

  -- The same, when the position flips and is entered at the price of the fill.
  flipped_cost : price *ℤ (q +ℤ s) -ℤ (price -ℤ avg) *ℤ q ≡ avg *ℤ q +ℤ price *ℤ s
  flipped_cost = rw (*ℤ-+ℤ price q s, -ℤ-*ℤ price avg q) (omega int_laws)

  -- The same, when the position is closed.
  closed_cost : q +ℤ s ≡ pos 0 → pos 0 -ℤ neg_ℤ ((price -ℤ avg) *ℤ s) ≡ avg *ℤ q +ℤ price *ℤ s
  closed_cost flat =
      let zero_cost : avg *ℤ q +ℤ avg *ℤ s ≡ pos 0 =
        sym (*ℤ-+ℤ avg q s) ∙ ap (λ n. avg *ℤ n) flat ∙ *ℤ-zero avg in
      rw (-ℤ-*ℤ price avg s) (
        omega (
          int_laws,
          neg_ℤ_parts (price *ℤ s -ℤ avg *ℤ s),
          ap pos_part zero_cost,
          ap neg_part zero_cost,
        ))

delta_kept :
    (avg price q s : ℤ) (divide : ℤ → ℤ → ℤ)
    → same_direction q s ≡ false
    → leb_ℤ (abs_ℤ s) (abs_ℤ q) ≡ true
    → realized_delta divide q avg s price ≡ neg_ℤ ((price -ℤ avg) *ℤ s)
delta_kept avg price (pos zero) s divide same fits = absurd (ground arith)
delta_kept avg price (pos (suc a)) (pos zero) divide same fits =
    ground (arith, *ℤ-zero (price -ℤ avg))
delta_kept avg price (pos (suc a)) (pos (suc b)) divide same fits = absurd (ground arith)
delta_kept avg price (pos (suc a)) (negsuc b) divide same fits =
    ground (arith, *ℤ-negsuc (price -ℤ avg) b, neg_ℤ-neg_ℤ ((price -ℤ avg) *ℤ pos (suc b)))
delta_kept avg price (negsuc a) (pos zero) divide same fits = absurd (ground arith)
delta_kept avg price (negsuc a) (pos (suc b)) divide same fits = ground arith
delta_kept avg price (negsuc a) (negsuc b) divide same fits = absurd (ground arith)

delta_flipped :
    (avg price q s : ℤ) (divide : ℤ → ℤ → ℤ)
    → same_direction q s ≡ false
    → leb_ℤ (abs_ℤ s) (abs_ℤ q) ≡ false
    → realized_delta divide q avg s price ≡ (price -ℤ avg) *ℤ q
delta_flipped avg price (pos zero) s divide same fits = absurd (ground arith)
delta_flipped avg price (pos (suc a)) (pos zero) divide same fits = absurd (ground arith)
delta_flipped avg price (pos (suc a)) (pos (suc b)) divide same fits = absurd (ground arith)
delta_flipped avg price (pos (suc a)) (negsuc b) divide same fits = ground arith
delta_flipped avg price (negsuc a) (pos zero) divide same fits = absurd (ground arith)
delta_flipped avg price (negsuc a) (pos (suc b)) divide same fits =
    ground (arith, *ℤ-negsuc (price -ℤ avg) a)
delta_flipped avg price (negsuc a) (negsuc b) divide same fits = absurd (ground arith)

flat_fits : (q s : ℤ) → eqb_ℤ (q +ℤ s) (pos 0) ≡ true → leb_ℤ (abs_ℤ s) (abs_ℤ q) ≡ true
flat_fits (pos a) (pos b) flat = ground (arith, +ℤ_parts (pos a) (pos b))
flat_fits (pos a) (negsuc b) flat = ground (arith, +ℤ_parts (pos a) (negsuc b))
flat_fits (negsuc a) (pos b) flat = ground (arith, +ℤ_parts (negsuc a) (pos b))
flat_fits (negsuc a) (negsuc b) flat = ground (arith, +ℤ_parts (negsuc a) (negsuc b))

reduced_cost :
    (divide : ℤ → ℤ → ℤ) (avg price q s : ℤ)
    → same_direction q s ≡ false
    → reduced_average divide q avg s price *ℤ (q +ℤ s) -ℤ realized_delta divide q avg s price
      ≡ avg *ℤ q +ℤ price *ℤ s
reduced_cost divide avg price q s other = elim (Bool-cases (leb_ℤ (abs_ℤ s) (abs_ℤ q))) [
  | inl fits ↦ elim (Bool-cases (eqb_ℤ (q +ℤ s) (pos 0))) [
    | inl flat ↦
        let e : q +ℤ s ≡ pos 0 = eq_of_parts _ _ (ground arith) in
        rw (delta_kept avg price q s divide other fits, flat, zero-*ℤ (q +ℤ s))
          (closed_cost avg price q s e)
    | inr held ↦
        rw (delta_kept avg price q s divide other fits, held, fits) (kept_cost avg price q s)
  ]
  | inr flips ↦ elim (Bool-cases (eqb_ℤ (q +ℤ s) (pos 0))) [
    | inl flat ↦ let fits = flat_fits q s flat in absurd (cc)
    | inr held ↦
        rw (delta_flipped avg price q s divide other flips, held, flips)
          (flipped_cost avg price q s)
  ]
]

-- The cost basis of a position, less what it has realized.
abbrev pub net_cost : Option PositionRow → ℤ
net_cost p = average_of p *ℤ quantity_of p -ℤ realized_of p

-- What a fill pays: its price for the signed quantity, and the commission.
abbrev pub paid : FillRow → ℤ
paid f = f.price *ℤ signed_quantity f +ℤ f.commission *ℤ unit

-- Where the fill opens or adds, the weighted average of the fill comes out with no rounding.
abbrev pub Exactly : (ℤ → ℤ → ℤ) → Option PositionRow → FillRow → Type 0
Exactly divide p f =
    same_direction (quantity_of p) (signed_quantity f) ≡ true
    → IsExact divide (average_of p) f.price (quantity_of p) (signed_quantity f)

-- On every branch, opening, adding, reducing, closing or flipping, a fill moves the net cost of the
-- position by exactly what it pays, where the average of an opening fill is not rounded.
pub apply_fill_to_position-net_cost :
    (divide : ℤ → ℤ → ℤ) (now : ℕ) (p : Option PositionRow) (f : FillRow)
    → Exactly divide p f
    → net_cost (some (apply_fill_to_position divide now p f)) ≡ net_cost p +ℤ paid f
unfolding apply_fill_to_position
apply_fill_to_position-net_cost divide now p f exact =
    let q = quantity_of p in
    let s = signed_quantity f in
    elim (Bool-cases (same_direction q s)) [
      | inl same ↦
          let e = opened_cost divide (average_of p) f.price q s same (exact same) in
          rw (same, e) (omega int_laws)
      | inr other ↦
          let e = reduced_cost divide (average_of p) f.price q s other in
          rw other (omega (int_laws, ap pos_part e, ap neg_part e))
    ]
