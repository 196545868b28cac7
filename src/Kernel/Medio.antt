-- ===== src/Kernel/Medio.antt =====
-- kernel/utils/planificadores/medio.go. The goroutine that BloquearProceso starts sleeps before
-- sigueBloqueado, which is a step of its own with the number of sessions that it was given.
use conurban_os.Prelude.{ℕ, ◌&&◌, Option, none, some, ◌>>=◌, ◌==◌, if◌then◌else◌}
use conurban_os.Kernel.Comunicacion.{enviar_suspension_proceso_a_memoria}
use conurban_os.Kernel.Estado.{Kernel, blocked, codigo, signal_pasar_proceso_a_ready}
use conurban_os.Kernel.Colas.{
  lock_proceso, unlock_proceso, execute_a_blocked, blocked_a_susp_blocked,
}

abbrev pub sesiones : ℕ → Kernel → ℕ
sesiones pid k = elim (k.cantidad_sesiones_io pid) [ none ↦ 0 | some n ↦ n ]

-- The second result is the number of sessions that the goroutine keeps, none where none is started.
unfoldable pub bloquear_proceso : ℕ → ℕ → Kernel → Option (Kernel × Option ℕ)
bloquear_proceso pid ahora k = do
  (k1, ok) ← execute_a_blocked pid ahora k
  some (k1, if ok then some (sesiones pid k1) else none)

unfoldable pub sigue_bloqueado : ℕ → ℕ → ℕ → Kernel → Option Kernel
sigue_bloqueado pid cantidad_sesiones_previa ahora k = do
  k1 ← lock_proceso pid k
  elim (k1.mapa_procesos pid) [
    | none ↦ unlock_proceso pid k1
    | some p ↦
        if (sesiones p.pid k1 == cantidad_sesiones_previa)
          && (codigo p.estado_actual == codigo blocked)
        then (do
          (k2, _) ← blocked_a_susp_blocked pid ahora (enviar_suspension_proceso_a_memoria p.pid k1)
          k3 ← signal_pasar_proceso_a_ready k2
          unlock_proceso pid k3)
        else unlock_proceso pid k1
  ]
