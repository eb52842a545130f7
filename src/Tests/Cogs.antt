-- ===== src/Tests/Cogs.antt =====
-- A batch of two units and a sale of three.
use amz_command_center.Base.{List, String, [], insert_by, member, ok, refl, sort_by, ◌∷◌, ◌≡◌}
use amz_command_center.Number.{Ticks, Ticks-IsOrdered, nought, ticks, ◌≼◌}
use amz_command_center.Samples.{one_stamp, same_case, ticks_repr, token_redactor}
use amz_command_center.Cogs.{
  Allocation, Calculation, CogsWorld, Receipt, Sale, allocate_fifo, calculate, close_sale,
  receipt_before, received, reverse_onto, sell, sell_all, use_batch, use_batches,
}
use amz_command_center.Cogs.Fifo.{Ticks-IsExact, calculate-covered, drawn}

abbrev world : CogsWorld Ticks
world = record { digest = λ method receipts sales. "hash"; month = λ date. "2026-08" }

abbrev batch : Receipt Ticks
batch = record {
  id = "b-1";
  received_at = "2026-08-01";
  quantity = 20_000;
  unit_cost = 5_000;
  currency = "GBP";
}

abbrev three_sold : Sale Ticks
three_sold = record { ref = "s-1"; sold_at = "2026-08-02"; quantity = 30_000; currency = "GBP" }

calculate_lem :
    (c : Calculation Ticks) × (calculate world "fifo" (batch ∷ []) (three_sold ∷ []) ≡ ok c)
unfolding calculate allocate_fifo sell_all sell use_batches use_batch close_sale received sort_by
    insert_by member
calculate_lem = (_, refl)

calculate-covered_example :
    (output : List (Allocation Ticks)) × (calculate_lem.0.allocations ≡ reverse_onto output [])
    × ((id : String) → nought ≼ drawn id (received (sort_by receipt_before (batch ∷ [])) id) output)
calculate-covered_example =
    calculate-covered Ticks-IsOrdered Ticks-IsExact world (batch ∷ []) (three_sold ∷ [])
      calculate_lem.1
