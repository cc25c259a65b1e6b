-- ===== src/Dlq.antt =====
-- The dead letter queue: internal/dlq/dlq.go. A method of *DLQManager takes the manager and returns
-- the new one. What the code gets from its surroundings is an argument: each reading of the clock
-- (nanoseconds since 1970), the result of writing the file, and the retry callback.
pub mod Item
pub mod Backoff
pub mod Queue
pub mod Attempts
pub mod Delays
pub mod Lookups
pub mod Rounds
pub mod Invariant
pub mod Dedupe
pub mod Views
pub mod Races
pub mod Restarts
mod Tests
