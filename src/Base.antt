-- ===== src/Base.antt =====
-- The base package: buffers, flags, masks, ids, the dictionary, the log and the process ids.
pub mod Buffer
pub mod Bit
pub mod Abs
pub mod Mask
pub mod Id
pub mod Dict
pub mod Pid
pub mod Log
mod Tests
