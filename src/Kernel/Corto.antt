-- ===== src/Kernel/Corto.antt =====
-- kernel/utils/planificadores/corto.go. The rounds of the three schedulers are steps, after their
-- waits.
pub mod Despacho
pub mod Progreso
pub mod MasCorta
use conurban_os.Prelude.{
  ℕ, ◌-◌, List, [], ◌∷◌, Bool, true, false, not, Option, none, some, ◌>>=◌, ltb, ◌==◌,
  if◌then◌else◌, get_elem?, length,
}
use conurban_os.Kernel.Comunicacion.{enviar_interrupcion_a_cpu}
use conurban_os.Kernel.Estado.{
  ListaCpu, Kernel, ready, execute, codigo, wait, AlgoritmoCorto, fifo, sjf, srt, sin_algoritmo,
}
use conurban_os.Kernel.Orden.{Sort, Estimados, est_sgte}
use conurban_os.Kernel.Cpus.{
  elegir_cpu_libre, hay_cpus_libres, buscar_cpu_por_pid, enviar_proceso_a_cpu,
}
use conurban_os.Kernel.Colas.{
  lock_cola, unlock_cola, lock_proceso, unlock_proceso, con_cola, ready_a_execute, execute_a_ready,
}
use conurban_os.Kernel.Largo.{con_mutex, con_proceso, todos}

-- A critical section of the mutex of a queue.
abbrev pub con_cola_tomada : (Kernel → Option Kernel) → Kernel → Option Kernel
con_cola_tomada f k = do k1 ← lock_cola ready k; k2 ← f k1; unlock_cola ready k2

unfoldable pub hay_procesos_en_ready : Kernel → Option (Kernel × Bool)
hay_procesos_en_ready k = do k1 ← con_cola_tomada some k; some (k1, ltb 0 (length (k1.cola ready)))

abbrev pub actualizar_pc : ℕ → ℕ → Kernel → Option Kernel
actualizar_pc pid pc k = elim (k.mapa_procesos pid) [
  | none ↦ none
  | some p ↦ some (con_proceso pid (record p { pc = pc }) k)
]

-- The end that ejecutarUnProcesoFifo and ejecutarUnProcesoSjf share: a pid that is not in the map
-- returns with its mutex held.
-- Here nothing runs between the sending and the change of state; in the source a handler of the process
-- that was sent may, for which Kernel/Invariante/Pasos has the two as steps of their own.
unfoldable pub despachar : ListaCpu → ℕ → ℕ → Kernel → Option Kernel
despachar cpu pid ahora k = do
  k1 ← lock_proceso pid k
  elim (k1.mapa_procesos pid) [
    | none ↦ some k1
    | some p ↦ do
      k2 ← unlock_proceso pid k1
      (k3, _) ← ready_a_execute pid ahora (enviar_proceso_a_cpu cpu pid p.pc k2)
      some k3
  ]

unfoldable pub ejecutar_un_proceso_fifo : ℕ → Kernel → Option Kernel
unfolding despachar
ejecutar_un_proceso_fifo ahora k =
    let r = elegir_cpu_libre k in
    elim r.1 [
      | none ↦ some r.0
      | some cpu ↦ do
        k2 ← lock_cola ready r.0
        pid ← get_elem? (k2.cola ready) 0
        k3 ← unlock_cola ready k2
        despachar cpu pid ahora k3
    ]

abbrev pub esperar : Kernel → Option Kernel
esperar k = do
  n ← wait k.sem_cpus
  m ← wait k.sem_procesos_en_ready
  some (record k { sem_cpus = n; sem_procesos_en_ready = m })

unfoldable pub planificador_fifo : ℕ → Kernel → Option Kernel
unfolding ejecutar_un_proceso_fifo
planificador_fifo ahora k = do k1 ← esperar k; ejecutar_un_proceso_fifo ahora k1

module _ (sort : Sort) (est : Estimados) where
  abbrev pub estimado : Kernel → ℕ → Option est.Float
  estimado k pid = elim (k.mapa_procesos pid) [
    | none ↦ none
    | some p ↦ some (est_sgte est p.rafagas)
  ]

  abbrev pub menor_estimado : Kernel → ℕ → ℕ → Bool
  menor_estimado k a b = elim (estimado k a) [
    | none ↦ false
    | some x ↦ elim (estimado k b) [ none ↦ false | some y ↦ est.menor x y ]
  ]

  abbrev pub existe : Kernel → ℕ → Bool
  existe k pid = elim (k.mapa_procesos pid) [ none ↦ false | some p ↦ true ]

  -- The loop after the sort reads every process of the queue.
  unfoldable pub ordenar_ready_por_rafaga : Kernel → Option Kernel
  ordenar_ready_por_rafaga k =
      if todos (existe k) (k.cola ready)
      then some (con_cola ready (sort.slice (menor_estimado k) (k.cola ready)) k)
      else none

  unfoldable pub ejecutar_un_proceso_sjf : ℕ → Kernel → Option Kernel
  unfolding despachar ordenar_ready_por_rafaga
  ejecutar_un_proceso_sjf ahora k =
      let r = elegir_cpu_libre k in
      elim r.1 [
        | none ↦ some r.0
        | some cpu ↦ do
          k2 ← lock_cola ready r.0
          k3 ← ordenar_ready_por_rafaga k2
          pid ← get_elem? (k3.cola ready) 0
          k4 ← unlock_cola ready k3
          despachar cpu pid ahora k4
      ]

  unfoldable pub planificador_sjf : ℕ → Kernel → Option Kernel
  unfolding ejecutar_un_proceso_sjf
  planificador_sjf ahora k = do k1 ← esperar k; ejecutar_un_proceso_sjf ahora k1

  unfoldable pub rafaga_restante : ℕ → ℕ → Kernel → Option est.Float
  rafaga_restante pid ahora k = elim (k.mapa_procesos pid) [
    | none ↦ none
    | some p ↦
        some (est.menos (est_sgte est p.rafagas) (est.float64 (ahora - p.ultimo_cambio_de_estado)))
  ]

  unfoldable pub menor_restante : ℕ → Kernel → List ℕ → ℕ × est.Float → Option (ℕ × est.Float)
  unfolding rafaga_restante
  menor_restante ahora k [] r = some r
  menor_restante ahora k (pid ∷ pids) r = elim (rafaga_restante pid ahora k) [
    | none ↦ none
    | some x ↦ menor_restante ahora k pids (if est.menor x r.1 then (pid, x) else r)
  ]

  unfoldable pub buscar_proceso_de_menor_rafaga_restante : ℕ → Kernel → Option (ℕ × est.Float)
  unfolding menor_restante
  buscar_proceso_de_menor_rafaga_restante ahora k = do
    pid ← get_elem? (k.cola execute) 0
    x ← rafaga_restante pid ahora k
    menor_restante ahora k (k.cola execute) (pid, x)

  -- The pid that is to leave its CPU, or none.
  unfoldable pub verificar_desalojo : ℕ → Kernel → Option (Kernel × Option ℕ)
  unfolding buscar_proceso_de_menor_rafaga_restante ordenar_ready_por_rafaga
  verificar_desalojo ahora k = do
    k1 ← lock_cola execute k
    (pid, restante) ← buscar_proceso_de_menor_rafaga_restante ahora k1
    k2 ← lock_cola ready k1
    k3 ← ordenar_ready_por_rafaga k2
    primero ← get_elem? (k3.cola ready) 0
    nueva ← estimado k3 primero
    k4 ← unlock_cola ready k3
    k5 ← unlock_cola execute k4
    some (k5, if est.menor nueva restante then some pid else none)

-- The state of a process under its mutex and that of the execute queue.
unfoldable pub sigue_en_execute : ℕ → Kernel → Option (Kernel × Bool)
sigue_en_execute pid k = do
  k1 ← lock_proceso pid k
  k2 ← lock_cola execute k1
  k3 ← unlock_cola execute k2
  k4 ← unlock_proceso pid k3
  some (
    k4,
    elim (k2.mapa_procesos pid) [
      | none ↦ false
      | some p ↦ codigo p.estado_actual == codigo execute
    ],
  )

unfoldable pub enviar_y_ejecutar : ListaCpu → ℕ → ℕ → ℕ → Kernel → Option Kernel
enviar_y_ejecutar cpu pid pc ahora k = do
  (k1, _) ← ready_a_execute pid ahora (enviar_proceso_a_cpu cpu pid pc k)
  some k1

-- desalojarYEnviarProceso up to its wait for the answer of the CPU: the CPU, the pid and the program
-- counter that it goes on with, none where it has returned.
unfoldable pub desalojar : ℕ → ℕ → Kernel → Option (Kernel × Option (ListaCpu × ℕ × ℕ))
unfolding sigue_en_execute enviar_y_ejecutar
desalojar pid_en_exec ahora k = elim (buscar_cpu_por_pid pid_en_exec k) [
  | none ↦ some (k, none)
  | some cpu ↦ do
    k1 ← lock_cola ready k
    pid ← get_elem? (k1.cola ready) 0
    k2 ← con_mutex pid (λ k'. k') k1
    p ← k2.mapa_procesos pid
    k3 ← unlock_cola ready k2
    (k4, sigue) ← sigue_en_execute pid_en_exec k3
    (if sigue
        then some (enviar_interrupcion_a_cpu cpu pid_en_exec k4, some (cpu, pid, p.pc))
        else (do k5 ← enviar_y_ejecutar cpu pid p.pc ahora k4; some (k5, none)))
]

-- What follows the answer, a program counter; other steps may have come before it.
unfoldable pub desalojar_con_respuesta :
    ℕ → Option ℕ → ListaCpu × ℕ × ℕ → ℕ → Kernel → Option Kernel
unfolding sigue_en_execute enviar_y_ejecutar
desalojar_con_respuesta pid_en_exec respuesta (cpu, pid, pc) ahora k = do
  (k1, sigue) ← sigue_en_execute pid_en_exec k
  (if sigue
      then (do
        k2 ← lock_proceso pid_en_exec k1
        pc_nuevo ← respuesta
        k3 ← actualizar_pc pid_en_exec pc_nuevo k2
        k4 ← unlock_proceso pid_en_exec k3
        (k5, _) ← execute_a_ready pid_en_exec ahora k4
        enviar_y_ejecutar cpu pid pc ahora k5)
      else some k1)

-- One round of planificadorSRT, after its receive. The tests are asked once; nothing comes between.
unfoldable pub ronda_srt :
    Sort → Estimados → ℕ → Kernel → Option (Kernel × Option (ℕ × ListaCpu × ℕ × ℕ))
unfolding hay_procesos_en_ready ejecutar_un_proceso_sjf verificar_desalojo desalojar
ronda_srt sort est ahora k = do
  (k1, hay) ← hay_procesos_en_ready k
  (if not hay
      then some (k1, none)
      else (if hay_cpus_libres k1
          then (do k2 ← ejecutar_un_proceso_sjf sort est ahora k1; some (k2, none))
          else (do
            (k2, a_desalojar) ← verificar_desalojo sort est ahora k1
            elim a_desalojar [
              | none ↦ some (k2, none)
              | some pid ↦ do
                (k3, espera) ← desalojar pid ahora k2
                some (k3, elim espera [ none ↦ none | some x ↦ some (pid, x.0, x.1, x.2) ])
            ])))

-- The receive empties the channel; where it is empty already the scheduler waits.
unfoldable pub planificador_srt :
    Sort → Estimados → ℕ → Kernel → Option (Kernel × Option (ℕ × ListaCpu × ℕ × ℕ))
unfolding ronda_srt
planificador_srt sort est ahora k =
    if k.srt_replanificar
    then ronda_srt sort est ahora (record k { srt_replanificar = false })
    else none

-- One round of the scheduler that EjecutarPlanificadorCortoPlazo starts; another name starts none.
unfoldable pub planificador_corto :
    Sort → Estimados → AlgoritmoCorto → ℕ → Kernel → Option (Kernel × Option (ℕ × ListaCpu × ℕ × ℕ))
unfolding planificador_fifo planificador_sjf planificador_srt
planificador_corto sort est fifo ahora k = do k1 ← planificador_fifo ahora k; some (k1, none)
planificador_corto sort est sjf ahora k = do k1 ← planificador_sjf sort est ahora k; some (k1, none)
planificador_corto sort est srt ahora k = planificador_srt sort est ahora k
planificador_corto sort est sin_algoritmo ahora k = none
