-- ===== src/Cogs/Defs.antt =====
-- `calculate` with its methods FIFO, weighted average and by period. `Decimal` is the parameter
-- `Number`; an output is kept with its newest row first, as `reversed` reads it.
use Prim.Native.String.{compare}
use package.text.Mathlib.Text.{is_lt}
use amz_command_center.Base.{
  Bool, List, Option, String, [], exists, false, first_of, if◌then◌else◌, is_some, none, not,
  select, some, str_eq, ℕ, ◌&&◌, ◌+◌, ◌||◌, ◌∷◌,
}
use amz_command_center.Number.{Number, nought, ticks}

pub record Receipt (W : Type 0) : Type 0 where
  pub id : String
  pub received_at : String
  pub quantity : W
  pub unit_cost : W
  pub currency : String

pub record Sale (W : Type 0) : Type 0 where
  pub ref : String
  pub sold_at : String
  pub quantity : W
  pub currency : String

pub record Allocation (W : Type 0) : Type 0 where
  pub sale_ref : String
  pub batch_id : Option String
  pub quantity : W
  pub unit_cost : Option W
  pub allocated_cost : Option W
  pub sequence : ℕ

pub record Calculation (W : Type 0) : Type 0 where
  pub allocations : List (Allocation W)
  pub is_complete : Bool
  pub incomplete_reason : Option String
  pub input_hash : String

-- The ValueErrors.
pub data CogsError : Type 0 where
  unsupported_method mixed_currencies bad_receipt zero_sale : CogsError

-- What comes from outside: `_hash`, a digest of the inputs, and the first seven characters of a date.
pub record CogsWorld (W : Type 0) : Type 0 where
  pub digest : String → List (Receipt W) → List (Sale W) → String
  pub month : String → String

abbrev pub str_lt : String → String → Bool
str_lt s t = is_lt (compare s t)

abbrev pub reverse_onto : {A : Type 0} → List A → List A → List A
reverse_onto [] ys = ys
reverse_onto (x ∷ xs) ys = reverse_onto xs (x ∷ ys)

abbrev pub pair_lt : String → String → String → String → Bool
pair_lt a b c d = str_lt a c || (str_eq a c && str_lt b d)

-- `len({…}) > 1` of the currencies.
abbrev pub are_mixed : List String → Bool
are_mixed [] = false
are_mixed (c ∷ cs) = exists (λ d. not (str_eq c d)) cs

-- What is left of each batch, and the rows and reason so far.
pub record Stock (W : Type 0) : Type 0 where
  pub remaining : String → W
  pub needed : W
  pub sequence : ℕ
  pub output : List (Allocation W)
  pub reason : Option String

abbrev pub later_reason : Option String → Option String → Option String
later_reason none reason = reason
later_reason (some r) reason = some r

module _ {W : Type 0} where
  abbrev pub receipt_before : Receipt W → Receipt W → Bool
  receipt_before x y = pair_lt x.received_at x.id y.received_at y.id

  abbrev pub sale_before : Sale W → Sale W → Bool
  sale_before x y = pair_lt x.sold_at x.ref y.sold_at y.ref

  -- The first row with a cost.
  abbrev pub is_priced : Allocation W → Bool
  is_priced a = is_some a.unit_cost

module _ {W : Type 0} ⦃n : Number W⦄ where
  abbrev pub is_positive : W → Bool
  is_positive x = n.lt nought x

  -- `{item.id: item.quantity for item in receipts}`: the last of an id stands. No other id is read.
  unfoldable pub received : List (Receipt W) → String → W
  received [] id = nought
  received (r ∷ receipts) id =
      if exists (λ (x : Receipt W). str_eq x.id id) receipts
      then received receipts id
      else if str_eq r.id id
      then r.quantity
      else nought

  -- `remaining[id] -= used`
  abbrev pub taken_off : String → W → (String → W) → String → W
  taken_off id used remaining other =
      if str_eq id other then n.sub (remaining other) used else remaining other

  abbrev pub min_of : W → W → W
  min_of x y = if n.lt y x then y else x

  -- A row of the sale from the batch.
  abbrev pub with_row : Sale W → Receipt W → W → Stock W → Stock W
  with_row sale batch used s = record s {
    remaining = taken_off batch.id used s.remaining;
    needed = n.sub s.needed used;
    sequence = s.sequence + 1;
    output =
        record {
          sale_ref = sale.ref;
          batch_id = some batch.id;
          quantity = used;
          unit_cost = some batch.unit_cost;
          allocated_cost = some (n.mul used batch.unit_cost);
          sequence = s.sequence;
        }
        ∷ s.output;
  }

  -- The body of the inner loop.
  unfoldable pub use_batch : Sale W → Receipt W → Stock W → Stock W
  use_batch sale batch s =
      if str_lt sale.sold_at batch.received_at || not (is_positive s.needed)
      then s
      else (let used = min_of (s.remaining batch.id) s.needed in
          if is_positive used then with_row sale batch used s else s)

  unfoldable pub use_batches : Sale W → List (Receipt W) → Stock W → Stock W
  unfolding use_batch
  use_batches sale [] s = s
  use_batches sale (batch ∷ receipts) s = use_batches sale receipts (use_batch sale batch s)

  -- The branch of a return.
  unfoldable pub take_back : Sale W → Stock W → Stock W
  take_back sale s = elim (first_of (select is_priced s.output)) [
    | none ↦ record s {
      output =
          record {
            sale_ref = sale.ref;
            batch_id = none;
            quantity = sale.quantity;
            unit_cost = none;
            allocated_cost = none;
            sequence = 0;
          }
          ∷ s.output;
      reason = some "return_without_prior_cost";
    }
    | some previous ↦ elim previous.unit_cost [
      -- Never read: the row was chosen for its cost.
      | none ↦ s
      | some cost ↦ record s {
        output =
            record {
              sale_ref = sale.ref;
              batch_id = previous.batch_id;
              quantity = sale.quantity;
              unit_cost = some cost;
              allocated_cost = some (n.mul sale.quantity cost);
              sequence = 0;
            }
            ∷ s.output;
      }
    ]
  ]

  -- What no batch had is a row without a cost.
  unfoldable pub close_sale : Sale W → Stock W → Stock W
  close_sale sale s =
      if is_positive s.needed
      then record s {
        output =
            record {
              sale_ref = sale.ref;
              batch_id = none;
              quantity = s.needed;
              unit_cost = none;
              allocated_cost = none;
              sequence = s.sequence;
            }
            ∷ s.output;
        reason = some "negative_stock";
      }
      else s

  unfoldable pub sell : List (Receipt W) → Sale W → Stock W → Stock W
  unfolding use_batches take_back close_sale
  sell receipts sale s =
      if n.lt sale.quantity nought
      then take_back sale s
      else close_sale sale
          (use_batches sale receipts (record s { needed = sale.quantity; sequence = 0 }))

  unfoldable pub sell_all : List (Receipt W) → List (Sale W) → Stock W → Stock W
  unfolding sell
  sell_all receipts [] s = s
  sell_all receipts (sale ∷ sales) s = sell_all receipts sales (sell receipts sale s)

  -- The stock before the first sale.
  abbrev pub full_stock : List (Receipt W) → Stock W
  full_stock receipts = record {
    remaining = received receipts;
    needed = nought;
    sequence = 0;
    output = [];
    reason = none;
  }

  -- `_fifo`
  unfoldable pub allocate_fifo :
      List (Receipt W) → List (Sale W) → List (Allocation W) × Option String
  unfolding sell_all received
  allocate_fifo receipts sales =
      let s = sell_all receipts sales (full_stock receipts) in (s.output, s.reason)
