-- ===== src/Kernel.antt =====
-- The kernel: kernel/ and globals/kernel/.
pub mod Estado
pub mod Comunicacion
pub mod Orden
pub mod Cpus
pub mod Colas
pub mod Largo
pub mod Medio
pub mod Corto
pub mod Ios
pub mod Syscalls
pub mod Invariante
