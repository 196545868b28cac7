-- ===== src/Kernel/Invariante/Dispositivos.antt =====
-- The handlers of the I/O devices, and what they share with the system calls, keep the invariant.
use conurban_os.Prelude.{
  ℕ, ◌≡◌, refl, ap, inl, inr, List, [], ◌∷◌, Bool, true, false, Option, some, none, bind_some,
  ◌>>=◌, arith, some_inj, Bool-cases, get_elem?, ltb, take, drop, ◌++◌, borrar, ◌+◌,
}
use conurban_os.Kernel.Estado.{
  Estado, new, ready, execute, blocked, susp_blocked, susp_ready, AlgoritmoCorto, fifo, sjf, srt,
  sin_algoritmo, Kernel, EntradaMapaIo, SyscallIo, signal_pasar_proceso_a_ready,
  avisar_proceso_en_ready,
}
use conurban_os.Kernel.Colas.{
  lock_proceso, unlock_proceso, blocked_a_ready, susp_blocked_a_susp_ready,
}
use conurban_os.Kernel.Cpus.{signal_cpus, avisar_cpu, liberar_cpu, buscar_cpu, con_cpu}
use conurban_os.Kernel.Largo.{finalizar_proceso}
use conurban_os.Kernel.Ios.{
  io_de, con_io, enviar_solicitud_io, despertar, liberar_instancia, buscar_instancia_io,
  manejar_fin_io, finalizar_esperando, corridas, desconexion_io, desconectar,
}
use conurban_os.Kernel.Invariante.{
  caso, caso_lista, Bien, MismaVista, vista_refl, vista_trans, vista-Bien, lock_proceso-vista,
  unlock_proceso-vista,
}
use conurban_os.Kernel.Invariante.Bloqueo.{blocked_a_ready-Bien, susp_blocked_a_susp_ready-Bien}
use conurban_os.Kernel.Invariante.Comienzo.{signal-vista}
use conurban_os.Kernel.Invariante.Final.{Terminado-Bien, finalizar_proceso-Terminado}
use conurban_os.Kernel.Invariante.Rondas.{avisar-vista}

pub finalizar-Bien :
    (pid : ℕ) (e : Estado) (ahora : ℕ) (k : Kernel) {k' : Kernel}
    → finalizar_proceso pid e ahora k ≡ some k'
    → Bien k
    → Bien k'
finalizar-Bien pid e ahora k h b = Terminado-Bien (finalizar_proceso-Terminado pid e ahora k h).0 b

signal_cpus-vista : (k : Kernel) {k' : Kernel} → signal_cpus k ≡ some k' → MismaVista k k'
unfolding signal_cpus
signal_cpus-vista k h = elim (Bool-cases (ltb k.sem_cpus 1000)) [
  | inl hay ↦
      rw (← some_inj (rw (signal_cpus, hay) at h))
        (record { cola = λ e. refl; mapa = λ a. refl; contador = refl })
  | inr llena ↦ let x = rw (signal_cpus, llena) at h in absurd (ground arith)
]

avisar_cpu-vista :
    (algoritmo : AlgoritmoCorto) (k : Kernel) {k' : Kernel}
    → avisar_cpu algoritmo k ≡ some k'
    → MismaVista k k'
unfolding avisar_cpu
avisar_cpu-vista fifo k h = signal_cpus-vista k h
avisar_cpu-vista sjf k h = signal_cpus-vista k h
avisar_cpu-vista srt k h =
    rw (← some_inj h) (record { cola = λ e. refl; mapa = λ a. refl; contador = refl })
avisar_cpu-vista sin_algoritmo k h = rw (← some_inj h) (vista_refl k)

pub liberar_cpu-vista :
    (nombre : ℕ) (k : Kernel) {k' : Kernel} → liberar_cpu nombre k ≡ some k' → MismaVista k k'
unfolding liberar_cpu
liberar_cpu-vista nombre k h =
    let (i, _, h1) = bind_some (buscar_cpu nombre k) _ h in
    let (c, _, avisa) = bind_some (get_elem? k.lista_cpus i) _ h1 in
    let libre = con_cpu i (record c { esta_libre = true }) k in
    vista_trans (record { cola = λ e. refl; mapa = λ a. refl; contador = refl })
      (avisar_cpu-vista k.algoritmo libre avisa)

despertar-Bien :
    (e : Estado) (pid ahora : ℕ) (k : Kernel) {k' : Kernel} {b : Bool}
    → despertar e pid ahora k ≡ some (k', b)
    → Bien k
    → Bien k'
unfolding despertar
despertar-Bien susp_blocked pid ahora k h b =
    let ((k1, ok), pasa, h1) = bind_some (susp_blocked_a_susp_ready pid ahora k) _ h in
    let b1 = susp_blocked_a_susp_ready-Bien pid ahora pasa b in
    elim (Bool-cases ok) [
      | inl si ↦
          let (k2, avisa, fin) = bind_some (signal_pasar_proceso_a_ready k1) _ (rw si at h1) in
          rw (← ap (λ q. q.0) (some_inj fin)) (vista-Bien (signal-vista k1 avisa) b1)
      | inr no_ ↦ rw (← ap (λ q. q.0) (some_inj (rw no_ at h1))) b1
    ]
despertar-Bien blocked pid ahora k h b =
    let ((k1, ok), pasa, h1) = bind_some (blocked_a_ready pid ahora k) _ h in
    let b1 = blocked_a_ready-Bien pid ahora pasa b in
    elim (Bool-cases ok) [
      | inl si ↦
          let (k2, avisa, fin) =
            bind_some (avisar_proceso_en_ready k1.algoritmo k1) _ (rw si at h1) in
          rw (← ap (λ q. q.0) (some_inj fin)) (vista-Bien (avisar-vista k1.algoritmo k1 avisa) b1)
      | inr no_ ↦ rw (← ap (λ q. q.0) (some_inj (rw no_ at h1))) b1
    ]
despertar-Bien new pid ahora k h b = rw (← ap (λ q. q.0) (some_inj h)) b
despertar-Bien ready pid ahora k h b = rw (← ap (λ q. q.0) (some_inj h)) b
despertar-Bien execute pid ahora k h b = rw (← ap (λ q. q.0) (some_inj h)) b
despertar-Bien susp_ready pid ahora k h b = rw (← ap (λ q. q.0) (some_inj h)) b

liberar_instancia-vista :
    (nombre_io pos : ℕ) (k : Kernel) {k' : Kernel}
    → liberar_instancia nombre_io pos k ≡ some k'
    → MismaVista k k'
unfolding liberar_instancia enviar_solicitud_io
liberar_instancia-vista nombre_io pos k h =
    let (x, _, h1) = bind_some (get_elem? (io_de nombre_io k).instancias pos) _ h in
    elim (caso_lista (io_de nombre_io k).cola_procesos_esperando _ _ h1) [
      | inl fin ↦
          rw (← some_inj fin) (record { cola = λ e. refl; mapa = λ a. refl; contador = refl })
      | inr (s, resto, _, fin) ↦
          rw (← some_inj fin) (record { cola = λ e. refl; mapa = λ a. refl; contador = refl })
    ]

pub manejar_fin_io-Bien :
    (pid nombre_io nombre_instancia ahora : ℕ) (k : Kernel) {k' : Kernel}
    → manejar_fin_io pid nombre_io nombre_instancia ahora k ≡ some k'
    → Bien k
    → Bien k'
unfolding manejar_fin_io
manejar_fin_io-Bien pid nombre_io nombre_instancia ahora k h b =
    let (k1, toma, h1) = bind_some (lock_proceso pid k) _ h in
    let b1 = vista-Bien (lock_proceso-vista pid k toma) b in
    elim (caso (k1.mapa_procesos pid) _ _ h1) [
      | inl suelta ↦ vista-Bien (unlock_proceso-vista pid k1 suelta) b1
      | inr (p, _, h2) ↦
          let ((k2, sigue), despierta, h3) =
            bind_some (despertar p.estado_actual pid ahora k1) _ h2 in
          let (k3, suelta, h4) = bind_some (unlock_proceso pid k2) _ h3 in
          let b3 =
            vista-Bien (unlock_proceso-vista pid k2 suelta)
              (despertar-Bien p.estado_actual pid ahora k1 despierta b1) in
          elim (Bool-cases sigue) [
            | inr no_ ↦ rw (← some_inj (rw no_ at h4)) b3
            | inl si ↦
                elim (caso (buscar_instancia_io nombre_io nombre_instancia k3) _ _ (rw si at h4)) [
                  | inl nada ↦ rw (← some_inj nada) b3
                  | inr (pos, _, libera) ↦
                      vista-Bien (liberar_instancia-vista nombre_io pos k3 libera) b3
                ]
          ]
    ]

finalizar_esperando-Bien :
    (ss : List SyscallIo) (ahora : ℕ) (k : Kernel) {k' : Kernel}
    → finalizar_esperando ss ahora k ≡ some k'
    → Bien k
    → Bien k'
unfolding finalizar_esperando
finalizar_esperando-Bien [] ahora k h b = rw (← some_inj h) b
finalizar_esperando-Bien (s ∷ ss) ahora k h b =
    let (k1, toma, h1) = bind_some (lock_proceso s.pid k) _ h in
    let (k2, suelta, h2) = bind_some (unlock_proceso s.pid k1) _ h1 in
    let (k3, termina, h3) =
      bind_some
        (elim (k1.mapa_procesos s.pid) [
          | none ↦ some k2
          | some p ↦ finalizar_proceso s.pid p.estado_actual ahora k2
        ])
        _ h2 in
    let w = unlock_proceso-vista s.pid k1 suelta in
    let b2 = vista-Bien (vista_trans (lock_proceso-vista s.pid k toma) w) b in
    finalizar_esperando-Bien ss ahora k3 h3 (elim (caso (k1.mapa_procesos s.pid) _ _ termina) [
      | inl igual ↦ rw (← some_inj igual) b2
      | inr (p, hay, acaba) ↦ finalizar-Bien s.pid p.estado_actual ahora k2 acaba b2
    ])

-- What the end of the process in the device leaves.
abbrev tras_el_proceso : ℕ → EntradaMapaIo → ℕ → Option ℕ → ℕ → Kernel → Option (Kernel × Bool)
tras_el_proceso nombre_io io pos pid_proceso ahora k = elim pid_proceso [
  | none ↦ some (k, true)
  | some pid ↦ elim (k.mapa_procesos pid) [
    | none ↦
        some (con_io nombre_io (record io { instancias = corridas pos io.instancias }) k, false)
    | some p ↦ do k' ← finalizar_proceso pid p.estado_actual ahora k; some (k', true)
  ]
]

tras_el_proceso-Bien :
    (nombre_io : ℕ) (io : EntradaMapaIo) (pos : ℕ) (pid_proceso : Option ℕ) (ahora : ℕ) (k : Kernel)
    {k' : Kernel} {s : Bool}
    → tras_el_proceso nombre_io io pos pid_proceso ahora k ≡ some (k', s)
    → Bien k
    → Bien k'
tras_el_proceso-Bien nombre_io io pos none ahora k h b = rw (← ap (λ q. q.0) (some_inj h)) b
tras_el_proceso-Bien nombre_io io pos (some pid) ahora k h b =
    elim (caso (k.mapa_procesos pid) _ _ h) [
      | inl nada ↦
          rw (← ap (λ q. q.0) (some_inj nada))
            (vista-Bien (record { cola = λ e. refl; mapa = λ a. refl; contador = refl }) b)
      | inr (p, hay, h1) ↦
          let (k1, acaba, fin) = bind_some (finalizar_proceso pid p.estado_actual ahora k) _ h1 in
          rw (← ap (λ q. q.0) (some_inj fin)) (finalizar-Bien pid p.estado_actual ahora k acaba b)
    ]

pub desconexion_io-Bien :
    (nombre_io nombre_instancia : ℕ) (pid_proceso : Option ℕ) (ahora : ℕ) (k : Kernel) {k' : Kernel}
    {s : Bool}
    → desconexion_io nombre_io nombre_instancia pid_proceso ahora k ≡ some (k', s)
    → Bien k
    → Bien k'
unfolding desconexion_io desconectar
desconexion_io-Bien nombre_io nombre_instancia pid_proceso ahora k h b =
    let io = io_de nombre_io k in
    let (pos, _, h1) = bind_some (buscar_instancia_io nombre_io nombre_instancia k) _ h in
    let ((k1, sigue), acaba, h2) =
      bind_some (tras_el_proceso nombre_io io pos pid_proceso ahora k) _ h1 in
    let b1 = tras_el_proceso-Bien nombre_io io pos pid_proceso ahora k acaba b in
    let quedan = take pos io.instancias ++ drop (pos + 1) io.instancias in
    elim (Bool-cases sigue) [
      | inr no_ ↦ rw (← ap (λ q. q.0) (some_inj (rw no_ at h2))) b1
      | inl si ↦
          let (k2, vacia, fin) =
            bind_some
              (elim quedan [
                | [] ↦ do
                  k' ← finalizar_esperando io.cola_procesos_esperando ahora k1
                  some (record k' { mapa_ios = borrar k'.mapa_ios nombre_io })
                | x ∷ xs ↦ some k1
              ])
              _ (rw si at h2) in
          let b2 : Bien k2 = elim (caso_lista quedan _ _ vacia) [
            | inr (_, _, _, igual) ↦ rw (← some_inj igual) b1
            | inl h3 ↦
                let (k3, acaban, borra) =
                  bind_some (finalizar_esperando io.cola_procesos_esperando ahora k1) _ h3 in
                rw (← some_inj borra) (
                  vista-Bien (record { cola = λ e. refl; mapa = λ a. refl; contador = refl })
                    (finalizar_esperando-Bien io.cola_procesos_esperando ahora k1 acaban b1))
          ] in
          rw (← ap (λ q. q.0) (some_inj fin))
            (vista-Bien (record { cola = λ e. refl; mapa = λ a. refl; contador = refl }) b2)
    ]
