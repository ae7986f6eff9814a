-- ===== src/Occupancy.antt =====
-- The occupancy counter (src/counting/occupancy_counter.cpp): the mode of the last five counts.
pub mod Counter
pub mod Mode
mod Examples
