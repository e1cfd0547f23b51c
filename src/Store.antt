-- ===== src/Store.antt =====
-- internal/store/store.go: the state that the engine writes and the server reads.
-- `Types` has the data, `Ops` the methods of `Store`, `Filters` the runtime filters and their
-- validation, `View` the snapshot that /api/state sends; the other children hold the proofs.
-- A method that locks, changes and unlocks is one function from the store to the store: the lock
-- makes it atomic. `fault` is set where the Go runtime would panic.
mod Types
mod Ops
mod Filters
mod View
pub mod Ring
pub mod Update
pub mod Tickers
pub use Types.*
unfoldable pub use Ops.*
unfoldable pub use Filters.*
unfoldable pub use View.*
