-- ===== src/Kernel/Largo.antt =====
-- kernel/utils/planificadores/largo.go, with agregar_a_new of estadosController.go. A request to the
-- memory module gets an answer, which is an argument.
use conurban_os.Prelude.{
  ℕ, zero, suc, ◌+◌, List, [], ◌∷◌, ◌++◌, Bool, true, false, ◌&&◌, Option, none, some, ◌>>=◌, ltb,
  if◌then◌else◌, get_elem?, length, poner, borrar,
}
use mathlib.Core.Option
use Prim.Native.String.{String}
use conurban_os.Kernel.Comunicacion.{
  enviar_finalizacion_a_memoria, enviar_reanudar_proceso_a_memoria,
  enviar_inicializar_proceso_a_memoria,
}
use conurban_os.Kernel.Estado.{
  Estado, new, susp_ready, ProcesoKernel, Kernel, signal_pasar_proceso_a_ready,
  avisar_proceso_en_ready, wait,
}
use conurban_os.Kernel.Orden.{Sort}
use conurban_os.Kernel.Colas.{
  lock_cola, unlock_cola, lock_proceso, unlock_proceso, con_cola, con_metricas, eliminar_proceso_de,
  new_a_ready, susp_ready_a_ready,
}

-- A critical section of the mutex of a process.
abbrev pub con_mutex : ℕ → (Kernel → Kernel) → Kernel → Option Kernel
con_mutex pid f k = do k1 ← lock_proceso pid k; unlock_proceso pid (f k1)

unfoldable pub asignar_pid : Kernel → Kernel × ℕ
asignar_pid k = (record k { pid_counter = k.pid_counter + 1 }, k.pid_counter)

unfoldable pub agregar_a_mapa_mutex : ℕ → Kernel → Kernel
agregar_a_mapa_mutex pid k = elim (k.procesos_mutex pid) [
  | some tomado ↦ k
  | none ↦ record k { procesos_mutex = poner k.procesos_mutex pid false }
]

abbrev pub con_proceso : ℕ → ProcesoKernel → Kernel → Kernel
con_proceso pid p k = record k { mapa_procesos = poner k.mapa_procesos pid p }

-- `&globals.Proceso{}`; its empty state is read by nobody before the next step replaces it.
abbrev proceso_vacio : ProcesoKernel
proceso_vacio = record {
  pid = 0;
  pc = 0;
  me = λ e. 0;
  mt = λ e. 0;
  estado_actual = new;
  rafagas = [];
  ultimo_cambio_de_estado = 0;
  archivo_pseudocodigo = "";
  tamanio = 0;
}

unfoldable pub agregar_a_mapa_procesos : ℕ → Kernel → Option Kernel
agregar_a_mapa_procesos pid k =
    con_mutex pid
      (λ k'. elim (k'.mapa_procesos pid) [ some p ↦ k' | none ↦ con_proceso pid proceso_vacio k' ])
      k

abbrev pub proceso_nuevo : ℕ → String → ℕ → ℕ → ProcesoKernel
proceso_nuevo pid archivo tamanio ahora = record proceso_vacio {
  pid = pid;
  ultimo_cambio_de_estado = ahora;
  archivo_pseudocodigo = archivo;
  tamanio = tamanio;
}

unfoldable pub crear_estructuras_proceso : ℕ → String → ℕ → ℕ → Kernel → Option Kernel
crear_estructuras_proceso pid archivo tamanio ahora k =
    con_mutex pid (con_proceso pid (proceso_nuevo pid archivo tamanio ahora)) k

-- Whether a comparison can lock the mutex of the process and read its size.
abbrev pub se_puede_comparar : Kernel → ℕ → Bool
se_puede_comparar k pid = elim (k.procesos_mutex pid) [
  | some false ↦ elim (k.mapa_procesos pid) [ some p ↦ true | none ↦ false ]
  | _ ↦ false
]

unfoldable pub todos : (ℕ → Bool) → List ℕ → Bool
todos test [] = true
todos test (x ∷ xs) = test x && todos test xs

abbrev pub tamanio_de : Kernel → ℕ → ℕ
tamanio_de k pid = elim (k.mapa_procesos pid) [ some p ↦ p.tamanio | none ↦ 0 ]

abbrev pub mas_chico : Kernel → ℕ → ℕ → Bool
mas_chico k a b = ltb (tamanio_de k a) (tamanio_de k b)

module _ (sort : Sort) where
  -- ordenar_new and ordenar_susp_ready: with two elements or more each takes part in a comparison.
  unfoldable pub ordenar_por_tamanio : Estado → Kernel → Option Kernel
  unfolding todos
  ordenar_por_tamanio e k =
      if ltb (length (k.cola e)) 2
      then some k
      else (if todos (se_puede_comparar k) (k.cola e)
          then some (con_cola e (sort.slice (mas_chico k) (k.cola e)) k)
          else none)

  abbrev pub ordenar_si_pmcp : Estado → Kernel → Option Kernel
  ordenar_si_pmcp e k = if k.pmcp then ordenar_por_tamanio e k else some k

  unfoldable pub agregar_a_new : ℕ → Kernel → Option Kernel
  unfolding ordenar_por_tamanio
  agregar_a_new pid k = do
    k1 ← lock_cola new k
    k2 ← ordenar_si_pmcp new (con_cola new (k1.cola new ++ pid ∷ []) k1)
    unlock_cola new k2

  unfoldable pub crear_proceso_nuevo : String → ℕ → ℕ → Kernel → Option Kernel
  unfolding asignar_pid agregar_a_mapa_mutex agregar_a_mapa_procesos crear_estructuras_proceso
      agregar_a_new
  crear_proceso_nuevo archivo tamanio ahora k =
      let r = asignar_pid k in
      (do
        k2 ← agregar_a_mapa_procesos r.1 (agregar_a_mapa_mutex r.1 r.0)
        k3 ← crear_estructuras_proceso r.1 archivo tamanio ahora k2
        k4 ← agregar_a_new r.1 k3
        signal_pasar_proceso_a_ready k4)

  -- One round of pasar_desde_new asks the memory for the process at the head; the loop goes on
  -- where the memory takes it.
  unfoldable pub ronda_new : (ℕ → Bool) → ℕ → Kernel → Option (Kernel × Bool)
  unfolding ordenar_por_tamanio
  ronda_new entra ahora k = do
    k1 ← ordenar_si_pmcp new k
    pid ← get_elem? (k1.cola new) 0
    k2 ← con_mutex pid (λ k'. k') k1
    p ← k2.mapa_procesos pid
    let r = enviar_inicializar_proceso_a_memoria entra p k2
    (if r.1
        then (do
          (k4, _) ← new_a_ready pid ahora r.0
          k5 ← avisar_proceso_en_ready k4.algoritmo k4
          some (k5, true))
        else some (r.0, false))

  -- The caller of this one holds the mutex of the queue.
  unfoldable pub ronda_susp_ready : (ℕ → Bool) → ℕ → Kernel → Option (Kernel × Bool)
  unfolding ordenar_por_tamanio
  ronda_susp_ready entra ahora k = do
    k1 ← ordenar_si_pmcp susp_ready k
    pid ← get_elem? (k1.cola susp_ready) 0
    let r = enviar_reanudar_proceso_a_memoria entra pid k1
    (if r.1
        then (do
          (k3, _) ← susp_ready_a_ready pid ahora r.0
          k4 ← avisar_proceso_en_ready k3.algoritmo k3
          some (k4, true))
        else some (r.0, false))

  -- The loop over a queue, on fuel: a round for each process in it.
  unfoldable pub bucle : Estado → (Kernel → Option (Kernel × Bool)) → ℕ → Kernel → Option Kernel
  bucle e ronda zero k = elim (k.cola e) [ [] ↦ some k | x ∷ xs ↦ none ]
  bucle e ronda (suc n) k = elim (k.cola e) [
    | [] ↦ some k
    | x ∷ xs ↦ elim (ronda k) [
      | none ↦ none
      | some (k', false) ↦ some k'
      | some (k', true) ↦ bucle e ronda n k'
    ]
  ]

  unfoldable pub pasar_desde_new : (ℕ → Bool) → ℕ → Kernel → Option Kernel
  unfolding bucle ronda_new
  pasar_desde_new entra ahora k = do
    k1 ← lock_cola new k
    k2 ← bucle new (ronda_new entra ahora) (length (k1.cola new)) k1
    unlock_cola new k2

  unfoldable pub pasar_desde_susp_ready : (ℕ → Bool) → ℕ → Kernel → Option Kernel
  unfolding bucle ronda_susp_ready
  pasar_desde_susp_ready entra ahora k =
      bucle susp_ready (ronda_susp_ready entra ahora) (length (k.cola susp_ready)) k

  -- One round of pasar_procesos_a_ready, after its wait.
  unfoldable pub ronda_largo : (ℕ → Bool) → (ℕ → Bool) → ℕ → Kernel → Option Kernel
  unfolding pasar_desde_new pasar_desde_susp_ready
  ronda_largo reanuda entra ahora k = do
    k1 ← lock_cola susp_ready k
    k2 ← pasar_desde_susp_ready reanuda ahora k1
    k3 ← unlock_cola susp_ready k2
    elim (k3.cola susp_ready) [ [] ↦ pasar_desde_new entra ahora k3 | x ∷ xs ↦ some k3 ]

  -- WaitPasarProcesoAReady, and the round.
  unfoldable pub pasar_procesos_a_ready : (ℕ → Bool) → (ℕ → Bool) → ℕ → Kernel → Option Kernel
  unfolding ronda_largo
  pasar_procesos_a_ready reanuda entra ahora k = do
    n ← wait k.sem_pasar_proceso_a_ready
    ronda_largo reanuda entra ahora (record k { sem_pasar_proceso_a_ready = n })

-- actualizar_metricas, which does nothing for a pid that is not in the map.
unfoldable pub actualizar_metricas : ℕ → Estado → ℕ → Kernel → Kernel
actualizar_metricas pid anterior ahora k = elim (k.mapa_procesos pid) [
  | none ↦ k
  | some p ↦ con_proceso pid (con_metricas anterior ahora p) k
]

unfoldable pub eliminar_de_mapa_procesos : ℕ → Kernel → Option Kernel
eliminar_de_mapa_procesos pid k =
    con_mutex pid (λ k'. record k' { mapa_procesos = borrar k'.mapa_procesos pid }) k

-- log_exit reads the process through its pointer, which is nil for a pid that is not in the map.
unfoldable pub log_exit : ℕ → Kernel → Option Kernel
log_exit pid k = do k1 ← con_mutex pid (λ k'. k') k; Option.map (λ p. k1) (k1.mapa_procesos pid)

unfoldable pub finalizar_proceso : ℕ → Estado → ℕ → Kernel → Option Kernel
unfolding actualizar_metricas eliminar_de_mapa_procesos log_exit
finalizar_proceso pid anterior ahora k = do
  (k1, _) ← eliminar_proceso_de pid anterior (enviar_finalizacion_a_memoria pid k)
  k2 ← con_mutex pid (actualizar_metricas pid anterior ahora) k1
  k3 ← log_exit pid k2
  k4 ← eliminar_de_mapa_procesos pid k3
  signal_pasar_proceso_a_ready k4
