-- ===== src/Cogs/Complete.antt =====
-- A calculation is complete when each of its rows has a cost.
use amz_command_center.Base.{
  Bool, Bool-cases, List, Option, Option-cases, String, [], arith, exists, first_of, inl, inr,
  is_some, none, not, ok, refl, select, sort_by, str_eq, ◌||◌, ◌∷◌, ◌≡◌,
}
use amz_command_center.Number.{Number, nought, ticks}
use amz_command_center.Cogs.Defs.{
  Allocation, Calculation, CogsWorld, Receipt, Sale, Stock, allocate_fifo, close_sale, full_stock,
  is_positive, is_priced, later_reason, receipt_before, reverse_onto, sale_before, sell, sell_all,
  take_back, use_batch, use_batches,
}
use amz_command_center.Cogs.Average.{allocate_average, average_sale, calculate, eligible, sum_by}
use amz_command_center.Cogs.Fifo.{use_batch-cases}

exists-reverse_onto :
    {A : Type 0} (p : A → Bool) (xs ys : List A)
    → exists p (reverse_onto xs ys) ≡ (exists p xs || exists p ys)
exists-reverse_onto p [] ys = refl
exists-reverse_onto p (x ∷ xs) ys = ground (arith, exists-reverse_onto p xs (x ∷ ys))

module _ {W : Type 0} ⦃n : Number W⦄ where
  abbrev pub is_unpriced : Allocation W → Bool
  is_unpriced a = not (is_priced a)

  -- There is a reason exactly when there is a row without a cost.
  abbrev IsExplained : Stock W → Type 0
  IsExplained s = is_some s.reason ≡ exists is_unpriced s.output

  use_batches-IsExplained :
      (sale : Sale W) (receipts : List (Receipt W)) (s : Stock W)
      → IsExplained s
      → IsExplained (use_batches sale receipts s)
  unfolding use_batches
  use_batches-IsExplained sale [] s h = h
  use_batches-IsExplained sale (batch ∷ receipts) s h =
      use_batches-IsExplained sale receipts (use_batch sale batch s)
        (elim (use_batch-cases sale batch s) [ inl c ↦ rw c h | inr (_, p, c) ↦ rw c h ])

  sell-IsExplained :
      (receipts : List (Receipt W)) (sale : Sale W) (s : Stock W)
      → IsExplained s
      → IsExplained (sell receipts sale s)
  unfolding sell take_back close_sale
  sell-IsExplained receipts sale s h = elim (Bool-cases (n.lt sale.quantity nought)) [
    | inl c ↦ elim (Option-cases (first_of (select is_priced s.output))) [
      | inl q ↦ rw (sell, c, take_back, q) refl
      | inr (previous, q) ↦ elim (Option-cases previous.unit_cost) [
        | inl r ↦ rw (sell, c, take_back, q, r) h
        | inr (cost, r) ↦ rw (sell, c, take_back, q, r) h
      ]
    ]
    | inr c ↦
        let opened : Stock W = record s { needed = sale.quantity; sequence = 0 } in
        let used = use_batches-IsExplained sale receipts opened h in
        elim (Bool-cases (is_positive (use_batches sale receipts opened).needed)) [
          | inl d ↦ rw (sell, c, close_sale, d) refl
          | inr d ↦ rw (sell, c, close_sale, d) used
        ]
  ]

  sell_all-IsExplained :
      (receipts : List (Receipt W)) (sales : List (Sale W)) (s : Stock W)
      → IsExplained s
      → IsExplained (sell_all receipts sales s)
  unfolding sell_all
  sell_all-IsExplained receipts [] s h = h
  sell_all-IsExplained receipts (sale ∷ sales) s h =
      sell_all-IsExplained receipts sales (sell receipts sale s)
        (sell-IsExplained receipts sale s h)

  allocate_average-explained :
      (w : CogsWorld W) (by_period : Bool) (receipts : List (Receipt W)) (sales : List (Sale W))
      (output : List (Allocation W)) (reason : Option String)
      → is_some reason ≡ exists is_unpriced output
      → is_some (allocate_average w by_period receipts sales output reason).1
        ≡ exists is_unpriced (allocate_average w by_period receipts sales output reason).0
  unfolding allocate_average average_sale
  allocate_average-explained w by_period receipts [] output reason h = h
  allocate_average-explained w by_period receipts (sale ∷ sales) output reason h =
      let row = average_sale w by_period receipts sale in
      allocate_average-explained w by_period receipts sales (row.0 ∷ output)
        (later_reason row.1 reason)
        (elim (Bool-cases
          (is_positive (sum_by (λ x. x.quantity) (eligible w by_period receipts sale) nought))) [
            | inl c ↦ rw (average_sale, c) h
            | inr c ↦ rw (average_sale, c) refl
          ])

  -- A calculation that returns, by whichever method, is marked complete exactly when each of its
  -- rows has a unit cost, and gives a reason when it is not.
  pub calculate_complete :
      (w : CogsWorld W) (method : String) (receipts : List (Receipt W)) (sales : List (Sale W))
      {c : Calculation W}
      → calculate w method receipts sales ≡ ok c
      → (c.is_complete ≡ not (exists is_unpriced c.allocations))
        × (is_some c.incomplete_reason ≡ exists is_unpriced c.allocations)
  unfolding calculate allocate_fifo
  calculate_complete w method receipts sales {c} h =
      let ordered = sort_by receipt_before receipts in
      let sold = sort_by sale_before sales in
      let fifo = sell_all ordered sold (full_stock ordered) in
      let average = allocate_average w (str_eq method "by_period") ordered sold [] none in
      elim (Bool-cases (str_eq method "fifo")) [
        | inl m ↦
            let e = sell_all-IsExplained ordered sold (full_stock ordered) refl in
            let r = exists-reverse_onto is_unpriced fifo.output [] in (ground arith, ground arith)
        | inr m ↦
            let e =
              allocate_average-explained w (str_eq method "by_period") ordered sold [] none refl in
            let r = exists-reverse_onto is_unpriced average.0 [] in (ground arith, ground arith)
      ]
