-- ===== src/Mining.antt =====
-- src/mining: the kinds of blocks, the encoding of a hit, the VRAM plan, and the engine.
pub mod BlockTypes
pub mod Encode
pub mod Vram
pub mod Engine
pub mod Lane
pub mod Wave
pub mod Calls
