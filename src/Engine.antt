-- ===== src/Engine.antt =====
-- internal/engine/engine.go and the parts of historic.go that work on the same store.
mod Types
mod Alerts
mod Ticks
mod Trade
mod Replay
mod Opening
mod Tracking
mod Dates
pub mod SoldOff
pub mod Sessions
pub mod Vwap
pub mod Selection
pub mod Refine
pub mod Moves
pub mod Lifecycle
pub mod Decisions
pub mod CatchUp
pub mod Closing
pub mod Sound
pub mod Tracked
pub mod Requests
pub mod Race
pub mod Calendar
pub mod Resolve
unfoldable pub use Types.*
unfoldable pub use Alerts.*
unfoldable pub use Ticks.*
unfoldable pub use Trade.*
unfoldable pub use Replay.*
unfoldable pub use Opening.*
unfoldable pub use Tracking.*
unfoldable pub use Dates.*
unfoldable pub use SoldOff.*
