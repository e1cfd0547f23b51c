-- ===== src/Session.antt =====
-- `Run` of internal/engine/engine.go, `RunHistoricForDate` and `runHistoricLiveToday` of
-- internal/engine/historic.go: a whole session, from the opening bars to the report. What the clients
-- and the clock answer is in `Feeds`. A cancelled context, on which each function returns where it
-- waits, is the end of a stream; the other places where it is tested are not modelled. A live
-- session takes the requests that change the runtime filters before the selection and among its trades;
-- the replay of a past day is one that no such request reaches.
mod Sockets
pub mod Feeds
mod Realtime
mod Historic
mod Today
pub mod Holds
pub mod Stable
pub mod Silent
pub mod Completes
pub mod Batches
pub mod Bounded
pub mod Sound
pub mod LiveEnd
pub mod DayVwap
pub mod Settled
pub mod SettledLive
unfoldable pub use Sockets.*
unfoldable pub use Feeds.*
unfoldable pub use Realtime.*
unfoldable pub use Historic.*
unfoldable pub use Today.*
