-- ===== src/Rfit/System.antt =====
-- main.cpp with one concurrent function: the thread of `main`, which calls `I::make_request` for
-- each request, and the threads `T` that serve it, interleaved in any order, without
-- STEAL_INSTANCE. A step runs from one use of a lock that the threads share to the next: the queue
-- of the function under `globalIQueue`'s lock, the count of free places under `restCap`'s. A local
-- map is used by its own thread alone.
mod Defs
pub mod Totals
pub mod Invariant
pub mod Steps
pub mod Reachable
pub mod Range
pub mod Safety
pub mod Returns
pub mod Races
unfoldable pub use Defs.*
