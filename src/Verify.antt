-- ===== src/Verify.antt =====
-- hornet/verify: which blocks are reachable, in which order, and under which conditions.
pub mod Worklist
pub mod Prune
pub mod Guard
pub mod Analyze
pub mod Forward
pub mod Regions
pub mod Check
mod Witness
