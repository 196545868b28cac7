-- ===== src/Kernel/Invariante/Despacho.antt =====
-- The rounds of the three short-term schedulers keep the invariant.
use conurban_os.Prelude.{
  ℕ, ◌≡◌, refl, sym, ap, ◌∙◌, inl, inr, Bool, ◌&&◌, Option, some, bind_some, arith, some_inj,
  Option-cases, Bool-cases, get_elem?, ◌==◌,
}
use conurban_os.Kernel.Estado.{wait, ready, execute, ListaCpu, Kernel, Mensaje}
use conurban_os.Kernel.Colas.{
  lock_cola, unlock_cola, lock_proceso, unlock_proceso, ready_a_execute, execute_a_ready,
}
use conurban_os.Kernel.Cpus.{
  elegir_cpu_libre, enviar_proceso_a_cpu, posicion, con_cpu, buscar_cpu_por_pid,
}
use conurban_os.Kernel.Corto.{
  despachar, ejecutar_un_proceso_fifo, planificador_fifo, esperar, enviar_y_ejecutar,
  sigue_en_execute, actualizar_pc, desalojar, desalojar_con_respuesta,
}
use conurban_os.Kernel.Largo.{con_mutex}
use conurban_os.Kernel.Invariante.{
  caso, Bien, MismaVista, vista_refl, vista_trans, vista-Bien, lock_cola-vista, unlock_cola-vista,
  lock_proceso-vista, unlock_proceso-vista,
}
use conurban_os.Kernel.Invariante.Mudanzas.{retoque, Retocado-Bien}
use conurban_os.Kernel.Invariante.Cambios.{ready_a_execute-Bien, execute_a_ready-Bien}
use conurban_os.Kernel.Invariante.Comienzo.{con_mutex-vistas}
use conurban_os.Kernel.Invariante.Rondas.{enviar-vista}

con_cpu-vista : (i : ℕ) (c : ListaCpu) (k : Kernel) → MismaVista k (con_cpu i c k)
con_cpu-vista i c k = record { cola = λ e. refl; mapa = λ a. refl; contador = refl }

pub enviar_proceso_a_cpu-vista :
    (cpu : ListaCpu) (pid pc : ℕ) (k : Kernel) → MismaVista k (enviar_proceso_a_cpu cpu pid pc k)
unfolding enviar_proceso_a_cpu
enviar_proceso_a_cpu-vista cpu pid pc k =
    elim (Option-cases
      (posicion (λ c. (c.ip == cpu.ip) && (c.puerto == cpu.puerto)) 0 k.lista_cpus)) [
        | inl nada ↦
            rw (enviar_proceso_a_cpu, nada)
              (record { cola = λ e. refl; mapa = λ a. refl; contador = refl })
        | inr (i, hay) ↦ elim (Option-cases (get_elem? k.lista_cpus i)) [
          | inl nada ↦
              rw (enviar_proceso_a_cpu, hay, nada)
                (record { cola = λ e. refl; mapa = λ a. refl; contador = refl })
          | inr (c, esta) ↦
              rw (enviar_proceso_a_cpu, hay, esta)
                (record { cola = λ e. refl; mapa = λ a. refl; contador = refl })
        ]
      ]

pub elegir_cpu_libre-vista : (k : Kernel) → MismaVista k (elegir_cpu_libre k).0
unfolding elegir_cpu_libre
elegir_cpu_libre-vista k = elim (Option-cases (posicion (λ c. c.esta_libre) 0 k.lista_cpus)) [
  | inl nada ↦ rw (elegir_cpu_libre, nada) (vista_refl k)
  | inr (i, hay) ↦ elim (Option-cases (get_elem? k.lista_cpus i)) [
    | inl nada ↦ rw (elegir_cpu_libre, hay, nada) (vista_refl k)
    | inr (c, esta) ↦ rw (elegir_cpu_libre, hay, esta) (con_cpu-vista i _ k)
  ]
]

pub despachar-Bien :
    (cpu : ListaCpu) (pid ahora : ℕ) {k k' : Kernel}
    → despachar cpu pid ahora k ≡ some k'
    → Bien k
    → Bien k'
unfolding despachar
despachar-Bien cpu pid ahora {k} h b =
    let (k1, toma, h1) = bind_some (lock_proceso pid k) _ h in
    let v = lock_proceso-vista pid k toma in
    elim (Option-cases (k1.mapa_procesos pid)) [
      | inl nada ↦ rw (← some_inj (rw nada at h1)) (vista-Bien v b)
      | inr (p, hay) ↦
          let (k2, suelta, h2) = bind_some (unlock_proceso pid k1) _ (rw hay at h1) in
          let ((k3, _), pasa, h3) =
            bind_some (ready_a_execute pid ahora (enviar_proceso_a_cpu cpu pid p.pc k2)) _ h2 in
          let w =
            vista_trans (unlock_proceso-vista pid k1 suelta)
              (enviar_proceso_a_cpu-vista cpu pid p.pc k2) in
          rw (← some_inj h3) (ready_a_execute-Bien pid ahora pasa (vista-Bien (vista_trans v w) b))
    ]

pub ejecutar_un_proceso_fifo-Bien :
    (ahora : ℕ) {k k' : Kernel} → ejecutar_un_proceso_fifo ahora k ≡ some k' → Bien k → Bien k'
unfolding ejecutar_un_proceso_fifo
ejecutar_un_proceso_fifo-Bien ahora {k} h b =
    let k1 = (elegir_cpu_libre k).0 in
    let b1 = vista-Bien (elegir_cpu_libre-vista k) b in
    elim (caso (elegir_cpu_libre k).1 _ _ h) [
      | inl nada ↦ rw (← some_inj nada) b1
      | inr (cpu, elige, sigue) ↦
          let (k2, toma, h1) = bind_some (lock_cola ready k1) _ sigue in
          let (pid, _, h2) = bind_some (get_elem? (k2.cola ready) 0) _ h1 in
          let (k3, suelta, h3) = bind_some (unlock_cola ready k2) _ h2 in
          despachar-Bien cpu pid ahora h3 (
            vista-Bien
              (vista_trans (lock_cola-vista ready k1 toma) (unlock_cola-vista ready k2 suelta)) b1)
    ]

pub esperar-vista : (k : Kernel) {k' : Kernel} → esperar k ≡ some k' → MismaVista k k'
esperar-vista k h =
    let (n, _, h1) = bind_some (wait k.sem_cpus) _ h in
    let (m, _, h2) = bind_some (wait k.sem_procesos_en_ready) _ h1 in
    rw (← some_inj h2) (record { cola = λ e. refl; mapa = λ a. refl; contador = refl })

pub planificador_fifo-Bien :
    (ahora : ℕ) {k k' : Kernel} → planificador_fifo ahora k ≡ some k' → Bien k → Bien k'
unfolding planificador_fifo
planificador_fifo-Bien ahora {k} h b =
    let (k1, espera, h1) = bind_some (esperar k) _ h in
    ejecutar_un_proceso_fifo-Bien ahora h1 (vista-Bien (esperar-vista k espera) b)

enviar_y_ejecutar-Bien :
    (cpu : ListaCpu) (pid pc ahora : ℕ) {k k' : Kernel}
    → enviar_y_ejecutar cpu pid pc ahora k ≡ some k'
    → Bien k
    → Bien k'
unfolding enviar_y_ejecutar
enviar_y_ejecutar-Bien cpu pid pc ahora {k} h b =
    let ((k1, _), pasa, h1) =
      bind_some (ready_a_execute pid ahora (enviar_proceso_a_cpu cpu pid pc k)) _ h in
    rw (← some_inj h1)
      (ready_a_execute-Bien pid ahora pasa (vista-Bien (enviar_proceso_a_cpu-vista cpu pid pc k) b))

sigue_en_execute-vista :
    (pid : ℕ) (k : Kernel) {k' : Kernel} {b : Bool}
    → sigue_en_execute pid k ≡ some (k', b)
    → MismaVista k k'
unfolding sigue_en_execute
sigue_en_execute-vista pid k h =
    let (k1, a, h1) = bind_some (lock_proceso pid k) _ h in
    let (k2, b, h2) = bind_some (lock_cola execute k1) _ h1 in
    let (k3, c, h3) = bind_some (unlock_cola execute k2) _ h2 in
    let (k4, d, h4) = bind_some (unlock_proceso pid k3) _ h3 in
    let v = vista_trans (lock_proceso-vista pid k a) (lock_cola-vista execute k1 b) in
    let w = vista_trans (unlock_cola-vista execute k2 c) (unlock_proceso-vista pid k3 d) in
    rw (← ap (λ q. q.0) (some_inj h4)) (vista_trans v w)

pub actualizar_pc-Bien :
    (pid pc : ℕ) (k : Kernel) {k' : Kernel} → actualizar_pc pid pc k ≡ some k' → Bien k → Bien k'
actualizar_pc-Bien pid pc k {k'} h b = elim (caso (k.mapa_procesos pid) _ _ h) [
  | inl nada ↦ absurd (ground arith)
  | inr (p, hay, fin) ↦
      let (r, es, ea) = retoque pid p (record p { pc = pc }) k hay refl refl in
      rw (← some_inj fin)
        (Retocado-Bien r (ap (λ q. q.estado_actual) es ∙ sym (ap (λ q. q.estado_actual) ea)) b)
]

pub desalojar_con_respuesta-Bien :
    (pid : ℕ) (respuesta : Option ℕ) (destino : ListaCpu × ℕ × ℕ) (ahora : ℕ) {k k' : Kernel}
    → desalojar_con_respuesta pid respuesta destino ahora k ≡ some k'
    → Bien k
    → Bien k'
unfolding desalojar_con_respuesta
desalojar_con_respuesta-Bien pid respuesta (cpu, otro, pc) ahora {k} h b =
    let ((k1, sigue), mira, h1) = bind_some (sigue_en_execute pid k) _ h in
    let b1 = vista-Bien (sigue_en_execute-vista pid k mira) b in
    elim (Bool-cases sigue) [
      | inr no_ ↦ rw (← some_inj (rw no_ at h1)) b1
      | inl si ↦
          let (k2, toma, h2) = bind_some (lock_proceso pid k1) _ (rw si at h1) in
          let (nuevo, _, h3) = bind_some respuesta _ h2 in
          let (k3, cambia, h4) = bind_some (actualizar_pc pid nuevo k2) _ h3 in
          let (k4, suelta, h5) = bind_some (unlock_proceso pid k3) _ h4 in
          let ((k5, _), sale, h6) = bind_some (execute_a_ready pid ahora k4) _ h5 in
          let b3 =
            actualizar_pc-Bien pid nuevo k2 cambia
              (vista-Bien (lock_proceso-vista pid k1 toma) b1) in
          enviar_y_ejecutar-Bien cpu otro pc ahora h6 (
            execute_a_ready-Bien pid ahora sale
              (vista-Bien (unlock_proceso-vista pid k3 suelta) b3))
    ]

pub desalojar-Bien :
    (pid ahora : ℕ) {k k' : Kernel} {s : Option (ListaCpu × ℕ × ℕ)}
    → desalojar pid ahora k ≡ some (k', s)
    → Bien k
    → Bien k'
unfolding desalojar
desalojar-Bien pid ahora {k} h b = elim (caso (buscar_cpu_por_pid pid k) _ _ h) [
  | inl nada ↦ rw (← ap (λ q. q.0) (some_inj nada)) b
  | inr (cpu, _, h0) ↦
      let (k1, a, h1) = bind_some (lock_cola ready k) _ h0 in
      let (otro, _, h2) = bind_some (get_elem? (k1.cola ready) 0) _ h1 in
      let (k2, c, h3) = bind_some (con_mutex otro (λ k'. k') k1) _ h2 in
      let (p, _, h4) = bind_some (k2.mapa_procesos otro) _ h3 in
      let (k3, d, h5) = bind_some (unlock_cola ready k2) _ h4 in
      let ((k4, sigue), mira, h6) = bind_some (sigue_en_execute pid k3) _ h5 in
      let (_, v, w) = con_mutex-vistas otro (λ k'. k') k1 c in
      let u =
        vista_trans (lock_cola-vista ready k a)
          (vista_trans (vista_trans v w) (unlock_cola-vista ready k2 d)) in
      let b4 = vista-Bien (vista_trans u (sigue_en_execute-vista pid k3 mira)) b in
      elim (Bool-cases sigue) [
        | inl si ↦
            rw (← ap (λ q. q.0) (some_inj (rw si at h6)))
              (vista-Bien (enviar-vista (Mensaje.interrumpir cpu.ip cpu.puerto pid) k4) b4)
        | inr no_ ↦
            let (k5, manda, h7) =
              bind_some (enviar_y_ejecutar cpu otro p.pc ahora k4) _ (rw no_ at h6) in
            rw (← ap (λ q. q.0) (some_inj h7)) (enviar_y_ejecutar-Bien cpu otro p.pc ahora manda b4)
      ]
]
