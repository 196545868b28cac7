-- ===== src/Memoria.antt =====
-- The memory module: memoria/ and globals/memoria/.
pub mod Estado
pub mod Tabla
pub mod Bytes
pub mod Marcos
pub mod Almacen
pub mod Liberar
pub mod Swap
pub mod Procesos
pub mod Accesos
