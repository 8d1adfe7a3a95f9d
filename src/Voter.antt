-- ===== src/Voter.antt =====
-- The N-way voter (src/redundancy/voter).
pub mod Types
pub mod Grouping
pub mod Classes
pub mod Majority
pub mod Masking
pub mod Vote
pub mod Receive
pub mod Reaction
pub mod Readings
pub mod Rounds
pub mod Queries
mod Tests
