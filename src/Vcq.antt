-- ===== src/Vcq.antt =====
-- lib/libunvmed-vcq.c: the virtual completion queues. A queue is a ring that any thread fills under
-- `tail_lock` and its owner alone empties; a pool hands out the queues' identifiers.
pub mod Ring
pub mod Pool
pub mod Run
mod Tests
