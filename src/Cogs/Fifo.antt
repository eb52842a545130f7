-- ===== src/Cogs/Fifo.antt =====
-- FIFO takes no more from a batch than was received, and allocates each sale in full.
use amz_command_center.Base.{
  All, Bool-cases, List, Option-cases, String, [], arith, exists, false, first_of, if◌then◌else◌,
  inl, inr, member, none, not, ok, opt_str_eq, refl, select, some, sort_by, str_eq, str_eq_iff,
  true, ◌&&◌, ◌++◌, ◌||◌, ◌∷◌, ◌≡◌, ◌⊎◌,
}
use amz_command_center.Number.{IsOrdered, Number, Ticks, eqb, nought, ticks, ◌≼◌}
use amz_command_center.Cogs.Defs.{
  Allocation, Calculation, CogsWorld, Receipt, Sale, Stock, allocate_fifo, close_sale, full_stock,
  is_positive, is_priced, min_of, receipt_before, received, reverse_onto, sale_before, sell,
  sell_all, str_lt, take_back, use_batch, use_batches, with_row,
}
use amz_command_center.Cogs.Average.{calculate}

-- A difference of equal amounts is nought: Decimal's subtraction.
pub record IsExact (W : Type 0) ⦃n : Number W⦄ : Type 0 where
  pub sub_self : (x : W) → n.sub x x ≡ nought

pub Ticks-IsExact : IsExact Ticks
Ticks-IsExact = record { sub_self = λ x. omega arith }

module _ {W : Type 0} ⦃n : Number W⦄ where
  -- What the rows leave of a batch: those of its id with a positive amount, oldest first. Returns
  -- are negative, and go back to no batch.
  abbrev pub drawn : String → W → List (Allocation W) → W
  drawn id amount [] = amount
  drawn id amount (row ∷ rows) =
      let rest = drawn id amount rows in
      if opt_str_eq row.batch_id (some id) && is_positive row.quantity
      then n.sub rest row.quantity
      else rest

  -- The rows account for what is left of every batch, and none is overdrawn.
  abbrev pub IsCovered : (String → W) → Stock W → Type 0
  IsCovered start s =
      (id : String) → (s.remaining id ≡ drawn id (start id) s.output) × (nought ≼ s.remaining id)

  sub_nonneg : IsOrdered W → IsExact W → (x y : W) → x ≼ y → nought ≼ n.sub y x
  sub_nonneg o e x y h = rw (← e.sub_self x) (o.sub_mono_left x y x h)

  min_of-left : IsOrdered W → (x y : W) → min_of x y ≼ x
  min_of-left o x y = elim (o.≼_total x y) [
    | inl h ↦ ground (arith, o.≼_refl x)
    | inr h ↦ ground (arith, o.≼_refl x)
  ]

  min_of-right : IsOrdered W → (x y : W) → min_of x y ≼ y
  min_of-right o x y = ground (arith, o.≼_refl y)

  with_row-IsCovered :
      (o : IsOrdered W) (e : IsExact W) (start : String → W) (sale : Sale W) (batch : Receipt W)
      (used : W) (s : Stock W)
      → is_positive used ≡ true
      → used ≼ s.remaining batch.id
      → IsCovered start s
      → IsCovered start (with_row sale batch used s)
  unfolding opt_str_eq
  with_row-IsCovered o e start sale batch used s p le h id =
      elim (Bool-cases (str_eq batch.id id)) [
        | inl q ↦
            let same : batch.id ≡ id = (str_eq_iff batch.id id).0 q in
            let below : used ≼ s.remaining id = rw (← same) le in
            let (left, some_left) = h id in
            (ground arith, rw q (sub_nonneg o e used (s.remaining id) below))
        | inr q ↦ let (left, some_left) = h id in (ground arith, ground arith)
      ]

  -- A batch is skipped, or gives what is there of what is needed.
  pub use_batch-cases :
      (sale : Sale W) (batch : Receipt W) (s : Stock W)
      → (use_batch sale batch s ≡ s)
        ⊎ ((is_positive s.needed ≡ true)
            × (is_positive (min_of (s.remaining batch.id) s.needed) ≡ true)
            × (use_batch sale batch s
                ≡ with_row sale batch (min_of (s.remaining batch.id) s.needed) s))
  unfolding use_batch
  use_batch-cases sale batch s =
      elim (Bool-cases (str_lt sale.sold_at batch.received_at || not (is_positive s.needed))) [
        | inl c ↦ inl (rw (use_batch, c) refl)
        | inr c ↦ elim (Bool-cases (is_positive (min_of (s.remaining batch.id) s.needed))) [
          | inl d ↦ inr (ground arith, d, rw (use_batch, c, d) refl)
          | inr d ↦ inl (rw (use_batch, c, d) refl)
        ]
      ]

  use_batch-IsCovered :
      (o : IsOrdered W) (e : IsExact W) (start : String → W) (sale : Sale W) (batch : Receipt W)
      (s : Stock W)
      → IsCovered start s
      → IsCovered start (use_batch sale batch s)
  use_batch-IsCovered o e start sale batch s h = elim (use_batch-cases sale batch s) [
    | inl q ↦ rw q h
    | inr (_, p, q) ↦ rw q (with_row-IsCovered o e start sale batch _ s p (min_of-left o _ _) h)
  ]

  use_batches-IsCovered :
      (o : IsOrdered W) (e : IsExact W) (start : String → W) (sale : Sale W)
      (receipts : List (Receipt W)) (s : Stock W)
      → IsCovered start s
      → IsCovered start (use_batches sale receipts s)
  unfolding use_batches
  use_batches-IsCovered o e start sale [] s h = h
  use_batches-IsCovered o e start sale (batch ∷ receipts) s h =
      use_batches-IsCovered o e start sale receipts (use_batch sale batch s)
        (use_batch-IsCovered o e start sale batch s h)

  -- A row that draws on no batch leaves the account as it is.
  take_back-IsCovered :
      (o : IsOrdered W) (start : String → W) (sale : Sale W) (s : Stock W)
      → n.lt sale.quantity nought ≡ true
      → IsCovered start s
      → IsCovered start (take_back sale s)
  unfolding take_back opt_str_eq
  take_back-IsCovered o start sale s c h id =
      let (left, some_left) = h id in
      let negative = o.≼_total nought sale.quantity in
      elim (Option-cases (first_of (select is_priced s.output))) [
        | inl q ↦ rw (take_back, q) (ground arith, ground arith)
        | inr (previous, q) ↦ elim (Option-cases previous.unit_cost) [
          | inl r ↦ rw (take_back, q, r) (ground arith, ground arith)
          | inr (cost, r) ↦ rw (take_back, q, r) (ground arith, ground arith)
        ]
      ]

  close_sale-IsCovered :
      (start : String → W) (sale : Sale W) (s : Stock W)
      → IsCovered start s
      → IsCovered start (close_sale sale s)
  unfolding close_sale opt_str_eq
  close_sale-IsCovered start sale s h id =
      let (left, some_left) = h id in
      elim (Bool-cases (is_positive s.needed)) [
        | inl q ↦ rw (close_sale, q) (ground arith, ground arith)
        | inr q ↦ rw (close_sale, q) (ground arith, ground arith)
      ]

  sell-IsCovered :
      (o : IsOrdered W) (e : IsExact W) (start : String → W) (receipts : List (Receipt W))
      (sale : Sale W) (s : Stock W)
      → IsCovered start s
      → IsCovered start (sell receipts sale s)
  unfolding sell
  sell-IsCovered o e start receipts sale s h = elim (Bool-cases (n.lt sale.quantity nought)) [
    | inl c ↦ rw (sell, c) (take_back-IsCovered o start sale s c h)
    | inr c ↦
        let opened : Stock W = record s { needed = sale.quantity; sequence = 0 } in
        rw (sell, c)
          (close_sale-IsCovered start sale (use_batches sale receipts opened)
            (use_batches-IsCovered o e start sale receipts opened h))
  ]

  sell_all-IsCovered :
      (o : IsOrdered W) (e : IsExact W) (start : String → W) (receipts : List (Receipt W))
      (sales : List (Sale W)) (s : Stock W)
      → IsCovered start s
      → IsCovered start (sell_all receipts sales s)
  unfolding sell_all
  sell_all-IsCovered o e start receipts [] s h = h
  sell_all-IsCovered o e start receipts (sale ∷ sales) s h =
      sell_all-IsCovered o e start receipts sales (sell receipts sale s)
        (sell-IsCovered o e start receipts sale s h)

  received_nonneg :
      (o : IsOrdered W) (receipts : List (Receipt W)) (id : String)
      → exists (λ (x : Receipt W). not (is_positive x.quantity) || n.lt x.unit_cost nought) receipts
        ≡ false
      → nought ≼ received receipts id
  unfolding received
  received_nonneg o [] id h = o.≼_refl nought
  received_nonneg o (r ∷ receipts) id h =
      let rest = received_nonneg o receipts id (ground arith) in
      let this = o.≼_total nought r.quantity in let zero = o.≼_refl nought in ground arith

  -- For every batch of a FIFO calculation that returns, the rows that draw on it, taken off what was
  -- received of it one after the other, never leave less than nothing.
  pub calculate-covered :
      (o : IsOrdered W) (e : IsExact W) (w : CogsWorld W) (receipts : List (Receipt W))
      (sales : List (Sale W)) {c : Calculation W}
      → calculate w "fifo" receipts sales ≡ ok c
      → (output : List (Allocation W)) × (c.allocations ≡ reverse_onto output [])
        × ((id : String) → nought ≼ drawn id (received (sort_by receipt_before receipts) id) output)
  unfolding calculate allocate_fifo member
  calculate-covered o e w receipts sales {c} h =
      let ordered = sort_by receipt_before receipts in
      let end = sell_all ordered (sort_by sale_before sales) (full_stock ordered) in
      let good : exists (λ (x : Receipt W). not (is_positive x.quantity) || n.lt x.unit_cost nought)
            ordered
          ≡ false =
        ground arith in
      let covered =
        sell_all-IsCovered o e (received ordered) ordered (sort_by sale_before sales)
          (full_stock ordered) (λ id. (refl, received_nonneg o ordered id good)) in
      (end.output, ground arith, λ id. rw (← (covered id).0) (covered id).1)

  -- What the rows of a sale leave of its quantity, oldest first.
  abbrev pub left_over : W → List (Allocation W) → W
  left_over quantity [] = quantity
  left_over quantity (row ∷ rows) = n.sub (left_over quantity rows) row.quantity

  -- The rows added since the sale was opened account for what is still needed.
  abbrev IsFilling : Sale W → List (Allocation W) → Stock W → Type 0
  IsFilling sale before s =
      (rows : List (Allocation W)) × (s.output ≡ rows ++ before)
      × (s.needed ≡ left_over sale.quantity rows)
      × (nought ≼ s.needed)
      × All (λ row. row.sale_ref ≡ sale.ref) rows

  use_batches-IsFilling :
      (o : IsOrdered W) (e : IsExact W) (sale : Sale W) (before : List (Allocation W))
      (receipts : List (Receipt W)) (s : Stock W)
      → IsFilling sale before s
      → IsFilling sale before (use_batches sale receipts s)
  unfolding use_batches
  use_batches-IsFilling o e sale before [] s h = h
  use_batches-IsFilling o e sale before (batch ∷ receipts) s (rows, q, left, some_left, refs) =
      use_batches-IsFilling o e sale before receipts (use_batch sale batch s)
        (elim (use_batch-cases sale batch s) [
          | inl c ↦ rw c (rows, q, left, some_left, refs)
          | inr (_, p, c) ↦
              let used = min_of (s.remaining batch.id) s.needed in
              rw c (
                record {
                  sale_ref = sale.ref;
                  batch_id = some batch.id;
                  quantity = used;
                  unit_cost = some batch.unit_cost;
                  allocated_cost = some (n.mul used batch.unit_cost);
                  sequence = s.sequence;
                }
                    ∷ rows,
                ground arith,
                ground arith,
                sub_nonneg o e used s.needed (min_of-right o (s.remaining batch.id) s.needed),
                (refl, refs),
              )
        ])

  nothing_left : IsOrdered W → IsExact W → (x y : W) → x ≡ y → eqb (n.sub y x) nought ≡ true
  nothing_left o e x y q = rw (q, e.sub_self y, o.≼_refl nought) refl

  at_nought : (x y : W) → x ≡ y → is_positive x ≡ false → nought ≼ x → eqb y nought ≡ true
  at_nought x y q c h = ground arith

  -- A sale of a positive quantity adds rows of its own, and what they allocate, the row without a
  -- cost included, taken off its quantity one after the other leaves nothing.
  pub sell-fills :
      (o : IsOrdered W) (e : IsExact W) (receipts : List (Receipt W)) (sale : Sale W) (s : Stock W)
      → is_positive sale.quantity ≡ true
      → (rows : List (Allocation W)) × ((sell receipts sale s).output ≡ rows ++ s.output)
        × (eqb (left_over sale.quantity rows) nought ≡ true)
        × All (λ row. row.sale_ref ≡ sale.ref) rows
  unfolding sell close_sale
  sell-fills o e receipts sale s p =
      let opened : Stock W = record s { needed = sale.quantity; sequence = 0 } in
      let end = use_batches sale receipts opened in
      let positive : n.lt sale.quantity nought ≡ false =
        ground (arith, o.≼_total nought sale.quantity) in
      let (rows, q, left, some_left, refs) =
        use_batches-IsFilling o e sale s.output receipts opened ([], refl, refl, positive, tt) in
      elim (Bool-cases (is_positive end.needed)) [
        | inl c ↦ (
          record {
            sale_ref = sale.ref;
            batch_id = none;
            quantity = end.needed;
            unit_cost = none;
            allocated_cost = none;
            sequence = end.sequence;
          }
              ∷ rows,
          rw (sell, positive, c, q) refl,
          nothing_left o e end.needed _ left,
          (refl, refs),
        )
        | inr c ↦
            (rows, rw (sell, positive, c, q) refl, at_nought end.needed _ left c some_left, refs)
      ]
