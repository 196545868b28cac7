-- ===== src/Casos.antt =====
-- The theorems at concrete inputs.
mod Tablas
mod Ordenes
mod Nucleo
mod Marcos
mod Pedidos
mod Reemplazos
mod Colas
mod Planificador
mod Llamadas
mod Instrucciones
mod Sistema
