-- ===== src/Cpu.antt =====
-- The CPU module: cpu/ and globals/cpu/.
pub mod Mmu
pub mod Tlb
pub mod Cache
pub mod Direccion
pub mod Instruccion
pub mod Entorno
pub mod Pedidos
pub mod Ejecucion
pub mod Ciclo
