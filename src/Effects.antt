-- ===== src/Effects.antt =====
-- What the services do to the world. Every call that leaves the program is an `Event`, and a run of
-- an operation is the list of its events, the newest first. The world answers each call as it likes,
-- in a way that may depend on all earlier events: the answers are functions of the history.
mod Monad
pub mod World
pub mod Keeps
pub mod Results
unfoldable pub use Monad.*
