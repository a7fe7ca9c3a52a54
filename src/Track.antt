-- ===== src/Track.antt =====
-- hornet/track/: symbolic values, the facts of a branch's edges, `track_branch`, the order in which
-- blocks are tracked, and aliasing.
pub mod Expr
pub mod Jump
pub mod Facts
pub mod Adjust
pub mod Branch
pub mod Record
pub mod Merge
pub mod Stack
pub mod Symbols
pub mod Width
pub mod Order
mod Witness
