-- ===== src/Paging.antt =====
-- Virtual Memory: the demand-paging simulator.
pub mod Bitmap
pub mod Machine
pub mod Policies
pub mod Swap
pub mod PageTable
pub mod Algs
pub mod Trace
pub mod Printing
pub mod Simulator
mod Tests
