-- ===== src/Kernel/Syscalls.antt =====
-- The system calls but IO: kernel/utils/handlers/syscallHandler.go. Each handler starts the step and
-- answers at once.
use conurban_os.Prelude.{ℕ, Bool, true, false, Option, none, some, ◌>>=◌, if◌then◌else◌, get_elem?}
use Prim.Native.String.{String}
use conurban_os.Kernel.Comunicacion.{enviar_dump_memory}
use conurban_os.Kernel.Estado.{Kernel, execute, blocked, avisar_proceso_en_ready}
use conurban_os.Kernel.Orden.{Sort}
use conurban_os.Kernel.Colas.{lock_proceso, unlock_proceso, blocked_a_ready}
use conurban_os.Kernel.Cpus.{buscar_cpu, enviar_proceso_a_cpu, liberar_cpu}
use conurban_os.Kernel.Largo.{crear_proceso_nuevo, finalizar_proceso}
use conurban_os.Kernel.Medio.{bloquear_proceso}
use conurban_os.Kernel.Corto.{actualizar_pc}

-- A CPU whose name is not in the list is the index -1.
unfoldable pub manejar_init_proc : Sort → String → ℕ → ℕ → ℕ → ℕ → ℕ → Kernel → Option Kernel
unfolding crear_proceso_nuevo buscar_cpu enviar_proceso_a_cpu
manejar_init_proc sort archivo tamanio nombre_cpu pid pc ahora k = do
  k1 ← crear_proceso_nuevo sort archivo tamanio ahora k
  pos ← buscar_cpu nombre_cpu k1
  cpu ← get_elem? k1.lista_cpus pos
  some (enviar_proceso_a_cpu cpu pid pc k1)

-- After the dump, with the mutex of the process held; `volcado` is the answer of the memory. The
-- result is false where the source returns, with the mutex given back.
unfoldable pub terminar_dump : ℕ → ℕ → Bool → ℕ → Kernel → Option (Kernel × Bool)
unfolding finalizar_proceso
terminar_dump pid pc false ahora k = do k1 ← finalizar_proceso pid blocked ahora k; some (k1, true)
terminar_dump pid pc true ahora k = elim (k.mapa_procesos pid) [
  | none ↦ some (k, true)
  | some p ↦ do
    k1 ← actualizar_pc pid pc k
    (k2, ok) ← blocked_a_ready p.pid ahora k1
    (if ok
        then (do k3 ← avisar_proceso_en_ready k2.algoritmo k2; some (k3, true))
        else some (k2, false))
]

-- The handler takes the mutex of the process, and keeps it while it asks the memory for the dump;
-- `volcado` is the answer of the memory.
unfoldable pub tomar_y_volcar : ℕ → Bool → Kernel → Option (Kernel × Bool)
tomar_y_volcar pid volcado k = do k1 ← lock_proceso pid k; some (enviar_dump_memory volcado pid k1)

-- What follows the block of the process, whose goroutine keeps n sessions.
unfoldable pub volcar_bloqueado : ℕ → ℕ → ℕ → Bool → ℕ → ℕ → Kernel → Option (Kernel × Option ℕ)
unfolding tomar_y_volcar terminar_dump liberar_cpu
volcar_bloqueado pid pc nombre_cpu volcado ahora n k = do
  (k1, pudo) ← tomar_y_volcar pid volcado k
  (k2, sigue) ← terminar_dump pid pc pudo ahora k1
  k3 ← unlock_proceso pid k2
  (if sigue then (do k4 ← liberar_cpu nombre_cpu k3; some (k4, some n)) else some (k3, some n))

-- A pid that is not in the map returns with its mutex held. The second result is the goroutine of
-- BloquearProceso.
unfoldable pub manejar_dump_memory : ℕ → ℕ → ℕ → Bool → ℕ → Kernel → Option (Kernel × Option ℕ)
unfolding bloquear_proceso volcar_bloqueado liberar_cpu
manejar_dump_memory pid pc nombre_cpu volcado ahora k = do
  k1 ← lock_proceso pid k
  elim (k1.mapa_procesos pid) [
    | none ↦ some (k1, none)
    | some p ↦ do
      k2 ← unlock_proceso pid k1
      (k3, sesion) ← bloquear_proceso pid ahora k2
      elim sesion [
        | none ↦ do k4 ← liberar_cpu nombre_cpu k3; some (k4, none)
        | some n ↦ volcar_bloqueado pid pc nombre_cpu volcado ahora n k3
      ]
  ]

unfoldable pub manejar_exit : ℕ → ℕ → ℕ → Kernel → Option Kernel
unfolding finalizar_proceso liberar_cpu
manejar_exit pid nombre_cpu ahora k = do
  k1 ← finalizar_proceso pid execute ahora k
  liberar_cpu nombre_cpu k1
