-- ===== src/Kernel/Colas.antt =====
-- The queues of the kernel and the changes of state: kernel/utils/planificadores/estadosController.go
-- over the variables of globals/kernel/globals.go. A step runs alone: `none` is a panic, or a wait
-- for a mutex that is held.
pub mod Cambios
pub mod Mudanza
pub mod Referencia
use conurban_os.Kernel.Estado.{
  Estado, new, ready, execute, blocked, susp_blocked, susp_ready, en_estado, ProcesoKernel, Kernel,
  es_fifo,
}
use conurban_os.Prelude.{
  ℕ, zero, suc, ◌+◌, ◌-◌, List, [], ◌∷◌, ◌++◌, Bool, true, false, not, Option, none, some, ◌>>=◌,
  ◌==◌, if◌then◌else◌, take, drop, Mapa, poner,
}

unfoldable pub lock_cola : Estado → Kernel → Option Kernel
lock_cola e k = if k.tomada e then none else some (record k { tomada = en_estado k.tomada e true })

unfoldable pub unlock_cola : Estado → Kernel → Option Kernel
unlock_cola e k =
    if k.tomada e then some (record k { tomada = en_estado k.tomada e false }) else none

unfoldable pub lock_proceso : ℕ → Kernel → Option Kernel
lock_proceso pid k = do
  tomado ← k.procesos_mutex pid
  if tomado then none else some (record k { procesos_mutex = poner k.procesos_mutex pid true })

unfoldable pub unlock_proceso : ℕ → Kernel → Option Kernel
unlock_proceso pid k = do
  tomado ← k.procesos_mutex pid
  if tomado then some (record k { procesos_mutex = poner k.procesos_mutex pid false }) else none

-- BuscarPIDEnCola, from position i on.
unfoldable pub buscar_pid_en_cola : ℕ → List ℕ → ℕ → Option ℕ
buscar_pid_en_cola i [] pid = none
buscar_pid_en_cola i (valor ∷ cola) pid =
    let resto = buscar_pid_en_cola (suc i) cola pid in if valor == pid then some i else resto

unfoldable pub agregar_proceso_a_cola : List ℕ → ℕ → List ℕ × Bool
unfolding buscar_pid_en_cola
agregar_proceso_a_cola cola pid = elim (buscar_pid_en_cola 0 cola pid) [
  | none ↦ (cola ++ pid ∷ [], true)
  | some i ↦ (cola, false)
]

unfoldable pub eliminar_proceso_de_cola : List ℕ → ℕ → List ℕ × Bool
unfolding buscar_pid_en_cola
eliminar_proceso_de_cola cola pid = elim (buscar_pid_en_cola 0 cola pid) [
  | none ↦ (cola, false)
  | some pos ↦ (take pos cola ++ drop (pos + 1) cola, true)
]

abbrev pub con_cola : Estado → List ℕ → Kernel → Kernel
con_cola e cola k = record k { cola = en_estado k.cola e cola }

abbrev pub con_metricas : Estado → ℕ → ProcesoKernel → ProcesoKernel
con_metricas viejo ahora p = record p {
  me = en_estado p.me viejo (p.me viejo + 1);
  mt = en_estado p.mt viejo (p.mt viejo + (ahora - p.ultimo_cambio_de_estado));
  ultimo_cambio_de_estado = ahora;
}

-- `cambiar_estado`, with actualizar_metricas; a pid that is not in the map is a nil pointer.
unfoldable pub cambiar_estado : ℕ → Estado → Estado → ℕ → Kernel → Option Kernel
cambiar_estado pid viejo nuevo ahora k = do
  p ← k.mapa_procesos pid
  some (record k {
    mapa_procesos =
        poner k.mapa_procesos pid (con_metricas viejo ahora (record p { estado_actual = nuevo }));
  })

-- A queue is locked, the process is taken off, and the queue is unlocked on both ways out.
unfoldable pub sacar_de : Estado → ℕ → Kernel → Option (Kernel × Bool)
sacar_de e pid k = do
  k1 ← lock_cola e k
  let r = eliminar_proceso_de_cola (k1.cola e) pid
  k2 ← unlock_cola e (con_cola e r.0 k1)
  some (k2, r.1)

unfoldable pub agregar_en : Estado → ℕ → Kernel → Option (Kernel × Bool)
agregar_en e pid k = do
  k1 ← lock_cola e k
  let r = agregar_proceso_a_cola (k1.cola e) pid
  k2 ← unlock_cola e (con_cola e r.0 k1)
  some (k2, r.1)

-- `eliminar_proceso_de`: the six states have the same case; a state without a queue, for which it
-- returns false, is none of them.
unfoldable pub eliminar_proceso_de : ℕ → Estado → Kernel → Option (Kernel × Bool)
unfolding sacar_de
eliminar_proceso_de pid e k = sacar_de e pid k

-- What follows the removal, where the mutex of the process is held: it is not released where the
-- process is in the new queue already.
unfoldable pub pasar_con_mutex : Estado → Estado → ℕ → ℕ → Kernel → Option (Kernel × Bool)
pasar_con_mutex viejo nuevo pid ahora k = do
  (k1, agregado) ← agregar_en nuevo pid k
  (if agregado
      then (do
        k2 ← cambiar_estado pid viejo nuevo ahora k1
        k3 ← unlock_proceso pid k2
        some (k3, true))
      else some (k1, false))

-- The mutex of the queue, and that of the process, stay held where the process is not in it.
unfoldable pub ready_a_execute : ℕ → ℕ → Kernel → Option (Kernel × Bool)
ready_a_execute pid ahora k = do
  k1 ← lock_proceso pid k
  k2 ← lock_cola ready k1
  let r = eliminar_proceso_de_cola (k2.cola ready) pid
  (if r.1
      then (do
        k3 ← unlock_cola ready (con_cola ready r.0 k2)
        pasar_con_mutex ready execute pid ahora k3)
      else some (k2, false))

-- The removal from these two queues takes no mutex of the queue.
unfoldable pub sin_mutex_a_ready : Estado → ℕ → ℕ → Kernel → Option (Kernel × Bool)
sin_mutex_a_ready viejo pid ahora k = do
  k1 ← lock_proceso pid k
  let r = eliminar_proceso_de_cola (k1.cola viejo) pid
  if r.1 then pasar_con_mutex viejo ready pid ahora (con_cola viejo r.0 k1) else some (k1, false)

unfoldable pub susp_ready_a_ready : ℕ → ℕ → Kernel → Option (Kernel × Bool)
unfolding sin_mutex_a_ready
susp_ready_a_ready pid ahora k = sin_mutex_a_ready susp_ready pid ahora k

unfoldable pub new_a_ready : ℕ → ℕ → Kernel → Option (Kernel × Bool)
unfolding sin_mutex_a_ready
new_a_ready pid ahora k = sin_mutex_a_ready new pid ahora k

-- The moves that take no mutex of the process; `fin` is what follows both queues.
unfoldable pub mover :
    Estado → Estado → (Kernel → Option Kernel) → ℕ → Kernel → Option (Kernel × Bool)
mover viejo nuevo fin pid k = do
  (k1, sacado) ← sacar_de viejo pid k
  (if sacado
      then (do
        (k2, agregado) ← agregar_en nuevo pid k1
        (if agregado then (do k3 ← fin k2; some (k3, true)) else some (k2, false)))
      else some (k1, false))

-- actualizar_rafagas: the burst since the last change of state, but under FIFO.
unfoldable pub actualizar_rafagas : ℕ → ℕ → Kernel → Option Kernel
actualizar_rafagas pid ahora k = if es_fifo k.algoritmo then some k else (do
  p ← k.mapa_procesos pid
  some (record k {
    mapa_procesos =
        poner k.mapa_procesos pid
          (record p { rafagas = (ahora - p.ultimo_cambio_de_estado) ∷ p.rafagas });
  }))

unfoldable pub execute_a_blocked : ℕ → ℕ → Kernel → Option (Kernel × Bool)
unfolding mover
execute_a_blocked pid ahora k =
    mover execute blocked
      (λ k'. actualizar_rafagas pid ahora k' >>= cambiar_estado pid execute blocked ahora) pid k

unfoldable pub blocked_a_susp_blocked : ℕ → ℕ → Kernel → Option (Kernel × Bool)
unfolding mover
blocked_a_susp_blocked pid ahora k =
    mover blocked susp_blocked (cambiar_estado pid blocked susp_blocked ahora) pid k

-- The mutex of the process is held for the change of state only.
unfoldable pub execute_a_ready : ℕ → ℕ → Kernel → Option (Kernel × Bool)
unfolding mover
execute_a_ready pid ahora k =
    mover execute ready
      (λ k'. lock_proceso pid k' >>= cambiar_estado pid execute ready ahora >>= unlock_proceso pid)
      pid k

unfoldable pub blocked_a_ready : ℕ → ℕ → Kernel → Option (Kernel × Bool)
unfolding mover
blocked_a_ready pid ahora k = mover blocked ready (cambiar_estado pid blocked ready ahora) pid k

unfoldable pub susp_blocked_a_susp_ready : ℕ → ℕ → Kernel → Option (Kernel × Bool)
unfolding mover
susp_blocked_a_susp_ready pid ahora k =
    mover susp_blocked susp_ready (cambiar_estado pid susp_blocked susp_ready ahora) pid k
