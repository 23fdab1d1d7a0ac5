-- ===== src/Efficiency.antt =====
-- src/efficiency: the thermal hunt, the VRAM caps and the power limit of the GPU.
pub mod Thermal
pub mod Hunt
pub mod Vram
