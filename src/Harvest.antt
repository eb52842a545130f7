-- ===== src/Harvest.antt =====
-- The routing of search terms that are to be promoted (services/rules/harvest.py): where a term comes
-- from, where it goes and why, and the record of a promotion.
mod Terms
mod Routes
mod Plans
mod Lineages
mod Destinations
pub mod Winner
pub mod Stable
pub mod Promotions
unfoldable pub use Terms.*
unfoldable pub use Routes.*
unfoldable pub use Plans.*
unfoldable pub use Lineages.*
mod Planned
