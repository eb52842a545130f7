-- ===== src/Cogs/Average.antt =====
-- The weighted averages of the batches, and the calculation by any method.
use amz_command_center.Base.{
  Bool, List, Option, Result, String, [], exists, if◌then◌else◌, is_some, map, member, none, not,
  ok, raise_if, select, some, sort_by, str_eq, ◌&&◌, ◌++◌, ◌>>◌, ◌||◌, ◌∷◌,
}
use amz_command_center.Number.{Number, eqb, nought, ticks}
use amz_command_center.Cogs.Defs.{
  Allocation, Calculation, CogsError, CogsWorld, Receipt, Sale, allocate_fifo, are_mixed,
  bad_receipt, is_positive, later_reason, mixed_currencies, receipt_before, reverse_onto,
  sale_before, str_lt, unsupported_method, zero_sale,
}

module _ {W : Type 0} ⦃n : Number W⦄ where
  abbrev pub sum_by : (Receipt W → W) → List (Receipt W) → W → W
  sum_by f [] total = total
  sum_by f (r ∷ receipts) total = sum_by f receipts (n.add total (f r))

  abbrev pub last_id : List (Receipt W) → Option String
  last_id [] = none
  last_id (r ∷ []) = some r.id
  last_id (r ∷ x ∷ receipts) = last_id (x ∷ receipts)

  -- The receipts that count for a sale.
  unfoldable pub eligible : CogsWorld W → Bool → List (Receipt W) → Sale W → List (Receipt W)
  eligible w by_period receipts sale =
      select
        (λ (x : Receipt W).
          not (str_lt sale.sold_at x.received_at)
          && (not by_period || str_eq (w.month x.received_at) (w.month sale.sold_at)))
        receipts

  unfoldable pub average_sale :
      CogsWorld W → Bool → List (Receipt W) → Sale W → Allocation W × Option String
  unfolding eligible
  average_sale w by_period receipts sale =
      let counted = eligible w by_period receipts sale in
      let quantity = sum_by (λ x. x.quantity) counted nought in
      let average = n.div (sum_by (λ x. n.mul x.quantity x.unit_cost) counted nought) quantity in
      if not (is_positive quantity)
      then (
        record {
          sale_ref = sale.ref;
          batch_id = none;
          quantity = sale.quantity;
          unit_cost = none;
          allocated_cost = none;
          sequence = 0;
        },
        some (if is_positive sale.quantity then "negative_stock" else "return_without_prior_cost"),
      )
      else (
        record {
          sale_ref = sale.ref;
          batch_id = last_id counted;
          quantity = sale.quantity;
          unit_cost = some average;
          allocated_cost = some (n.mul sale.quantity average);
          sequence = 0;
        },
        none,
      )

  -- `_average`
  unfoldable pub allocate_average :
      CogsWorld W
      → Bool
      → List (Receipt W)
      → List (Sale W)
      → List (Allocation W)
      → Option String
      → List (Allocation W) × Option String
  unfolding average_sale
  allocate_average w by_period receipts [] output reason = (output, reason)
  allocate_average w by_period receipts (sale ∷ sales) output reason =
      let (row, why) = average_sale w by_period receipts sale in
      allocate_average w by_period receipts sales (row ∷ output) (later_reason why reason)

  unfoldable pub calculate :
      CogsWorld W → String → List (Receipt W) → List (Sale W) → Result CogsError (Calculation W)
  unfolding sort_by allocate_fifo allocate_average member
  calculate w method receipts sales = do
    raise_if (not (member method ("fifo" ∷ "weighted_average" ∷ "by_period" ∷ [])))
        unsupported_method
    let ordered_receipts = sort_by receipt_before receipts
    let ordered_sales = sort_by sale_before sales
    raise_if
        (are_mixed (
          map (λ (x : Receipt W). x.currency) ordered_receipts
          ++ map (λ (x : Sale W). x.currency) ordered_sales))
        mixed_currencies
    raise_if
        (exists (λ (x : Receipt W). not (is_positive x.quantity) || n.lt x.unit_cost nought)
          ordered_receipts)
        bad_receipt
    raise_if (exists (λ (x : Sale W). eqb x.quantity nought) ordered_sales) zero_sale
    let (output, reason) =
        if str_eq method "fifo"
        then allocate_fifo ordered_receipts ordered_sales
        else allocate_average w (str_eq method "by_period") ordered_receipts ordered_sales [] none
    ok (record {
      allocations = reverse_onto output [];
      is_complete = not (is_some reason);
      incomplete_reason = reason;
      input_hash = w.digest method ordered_receipts ordered_sales;
    })
