-- ===== src/Server.antt =====
-- internal/server: the handlers, the queue and the loop of historic runs, the pump that sends the
-- store's events, the hub of the clients, and the bars of the chart. HTTP, JSON and the static files
-- are not modelled: a handler takes the decoded request and returns what it answers.
mod Requests
mod Runs
mod Pump
mod Chart
mod Hub
pub mod Audio
mod Goroutine
pub mod OneRun
pub mod Delivery
pub mod ChartDays
pub mod ChartTimes
pub mod HubOrder
unfoldable pub use Requests.*
unfoldable pub use Runs.*
unfoldable pub use Pump.*
unfoldable pub use Chart.*
unfoldable pub use Hub.*
unfoldable pub use Audio.*
unfoldable pub use Goroutine.*
