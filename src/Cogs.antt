-- ===== src/Cogs.antt =====
-- The cost of goods sold by batches (services/economics/batch_cogs.py).
mod Defs
mod Average
pub mod Fifo
pub mod Complete
unfoldable pub use Defs.*
unfoldable pub use Average.*
