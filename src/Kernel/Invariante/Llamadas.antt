-- ===== src/Kernel/Invariante/Llamadas.antt =====
-- The dump of the memory and EXIT: they keep the invariant, and where they go wrong.
use conurban_os.Prelude.{
  ℕ, ◌<◌, ◌≢◌, ◌≡◌, refl, sym, ap, ◌∙◌, inl, inr, Bool, true, false, Option, some, none, bind_some,
  arith, some_inj, Bool-cases, Option-cases, poner_self,
}
use conurban_os.Kernel.Estado.{
  Estado, execute, blocked, codigo, Kernel, avisar_proceso_en_ready, Mensaje,
}
use conurban_os.Kernel.Comunicacion.{enviar_finalizacion_a_memoria}
use conurban_os.Kernel.Orden.{veces}
use conurban_os.Kernel.Colas.{
  lock_cola, unlock_cola, lock_proceso, unlock_proceso, sacar_de, eliminar_proceso_de,
  blocked_a_ready, eliminar_proceso_de_cola, con_cola,
}
use conurban_os.Kernel.Cpus.{liberar_cpu}
use conurban_os.Kernel.Largo.{finalizar_proceso}
use conurban_os.Kernel.Medio.{bloquear_proceso}
use conurban_os.Kernel.Corto.{actualizar_pc}
use conurban_os.Kernel.Syscalls.{
  terminar_dump, manejar_dump_memory, manejar_exit, volcar_bloqueado, tomar_y_volcar,
}
use conurban_os.Kernel.Invariante.{
  caso, si_some, no_some, Bien, MismaVista, vista_trans, vista-Bien, lock_proceso-vista,
  unlock_proceso-vista, si_caso,
}
use conurban_os.Kernel.Invariante.Bloqueo.{bloquear_proceso-Bien, blocked_a_ready-Bien}
use conurban_os.Kernel.Invariante.Despacho.{actualizar_pc-Bien}
use conurban_os.Kernel.Invariante.Dispositivos.{finalizar-Bien, liberar_cpu-vista}
use conurban_os.Kernel.Invariante.Final.{finalizar_proceso-Terminado}
use conurban_os.Kernel.Invariante.Rondas.{avisar-vista, enviar-vista}

sacar_de-mutex :
    (e : Estado) (pid : ℕ) (k : Kernel) {k' : Kernel} {b : Bool}
    → sacar_de e pid k ≡ some (k', b)
    → k'.procesos_mutex ≡ k.procesos_mutex
unfolding sacar_de lock_cola unlock_cola
sacar_de-mutex e pid k h =
    let (k1, toma, h1) = bind_some (lock_cola e k) _ h in
    let r = eliminar_proceso_de_cola (k1.cola e) pid in
    let k2 = con_cola e r.0 k1 in
    let (k3, suelta, fin) = bind_some (unlock_cola e k2) _ h1 in
    ap (λ q. q.0.procesos_mutex) (sym (some_inj fin))
    ∙ ap (λ q. q.procesos_mutex) (sym (si_some (k2.tomada e) suelta))
    ∙ ap (λ q. q.procesos_mutex) (sym (no_some (k.tomada e) toma))

-- The end of a process waits for its mutex.
pub finalizar-trabado :
    (pid : ℕ) (e : Estado) (ahora : ℕ) (k : Kernel)
    → k.procesos_mutex pid ≡ some true
    → finalizar_proceso pid e ahora k ≡ none
unfolding finalizar_proceso eliminar_proceso_de lock_proceso
finalizar-trabado pid e ahora k tomado =
    let k0 = enviar_finalizacion_a_memoria pid k in
    elim (Option-cases (sacar_de e pid k0)) [
      | inl nada ↦ rw nada refl
      | inr ((k1, b), saca) ↦
          let igual = ap (λ m. m pid) (sacar_de-mutex e pid k0 saca) ∙ tomado in
          rw (saca, igual) refl
    ]

lock_proceso-tomado :
    (pid : ℕ) (k : Kernel) {k' : Kernel}
    → lock_proceso pid k ≡ some k'
    → k'.procesos_mutex pid ≡ some true
unfolding lock_proceso
lock_proceso-tomado pid k h =
    let (tomado, _, fin) = bind_some (k.procesos_mutex pid) _ h in
    rw (← no_some tomado fin) (poner_self k.procesos_mutex pid true)

terminar_dump-Bien :
    (pid pc : ℕ) (volcado : Bool) (ahora : ℕ) (k : Kernel) {k' : Kernel} {s : Bool}
    → k.procesos_mutex pid ≡ some true
    → terminar_dump pid pc volcado ahora k ≡ some (k', s)
    → Bien k
    → Bien k'
unfolding terminar_dump
terminar_dump-Bien pid pc false ahora k tomado h b =
    let (k1, acaba, _) = bind_some (finalizar_proceso pid blocked ahora k) _ h in
    let espera = finalizar-trabado pid blocked ahora k tomado in absurd (ground arith)
terminar_dump-Bien pid pc true ahora k tomado h b = elim (caso (k.mapa_procesos pid) _ _ h) [
  | inl nada ↦ rw (← ap (λ q. q.0) (some_inj nada)) b
  | inr (p, _, h1) ↦
      let (k1, cambia, h2) = bind_some (actualizar_pc pid pc k) _ h1 in
      let ((k2, ok), pasa, h3) = bind_some (blocked_a_ready p.pid ahora k1) _ h2 in
      let b2 = blocked_a_ready-Bien p.pid ahora pasa (actualizar_pc-Bien pid pc k cambia b) in
      elim (Bool-cases ok) [
        | inl si ↦
            let (k3, avisa, fin) =
              bind_some (avisar_proceso_en_ready k2.algoritmo k2) _ (rw si at h3) in
            rw (← ap (λ q. q.0) (some_inj fin)) (vista-Bien (avisar-vista k2.algoritmo k2 avisa) b2)
        | inr no_ ↦ rw (← ap (λ q. q.0) (some_inj (rw no_ at h3))) b2
      ]
]

-- After the handler took the mutex and asked for the dump, the mutex is taken.
tomar_y_volcar_lem :
    (pid : ℕ) (volcado : Bool) (k : Kernel) {k' : Kernel} {pudo : Bool}
    → tomar_y_volcar pid volcado k ≡ some (k', pudo)
    → MismaVista k k' × (k'.procesos_mutex pid ≡ some true) × (pudo ≡ volcado)
unfolding tomar_y_volcar
tomar_y_volcar_lem pid volcado k h =
    let (k1, toma, fin) = bind_some (lock_proceso pid k) _ h in
    let mismo = ap (λ q. q.0) (some_inj fin) in
    (
      rw (← mismo)
          (vista_trans (lock_proceso-vista pid k toma) (enviar-vista (Mensaje.memory_dump pid) k1)),
      rw (← mismo) (lock_proceso-tomado pid k toma),
      ap (λ q. q.1) (sym (some_inj fin)),
    )

volcar_bloqueado-Bien :
    (pid pc nombre_cpu : ℕ) (volcado : Bool) (ahora n : ℕ) (k : Kernel) {k' : Kernel} {s : Option ℕ}
    → volcar_bloqueado pid pc nombre_cpu volcado ahora n k ≡ some (k', s)
    → Bien k
    → Bien k'
unfolding volcar_bloqueado
volcar_bloqueado-Bien pid pc nombre_cpu volcado ahora n k h b =
    let ((k1, pudo), toma, h1) = bind_some (tomar_y_volcar pid volcado k) _ h in
    let ((k2, sigue), vuelca, h2) = bind_some (terminar_dump pid pc pudo ahora k1) _ h1 in
    let (k3, suelta, h3) = bind_some (unlock_proceso pid k2) _ h2 in
    let (v, tomado, _) = tomar_y_volcar_lem pid volcado k toma in
    let b3 =
      vista-Bien (unlock_proceso-vista pid k2 suelta)
        (terminar_dump-Bien pid pc pudo ahora k1 tomado vuelca (vista-Bien v b)) in
    elim (si_caso sigue _ _ h3) [
      | inl (_, h4) ↦
          let (k4, libera, fin) = bind_some (liberar_cpu nombre_cpu k3) _ h4 in
          rw (← ap (λ q. q.0) (some_inj fin))
            (vista-Bien (liberar_cpu-vista nombre_cpu k3 libera) b3)
      | inr (_, igual) ↦ rw (← ap (λ q. q.0) (some_inj igual)) b3
    ]

pub manejar_dump_memory-Bien :
    (pid pc nombre_cpu : ℕ) (volcado : Bool) (ahora : ℕ) (k : Kernel) {k' : Kernel} {s : Option ℕ}
    → manejar_dump_memory pid pc nombre_cpu volcado ahora k ≡ some (k', s)
    → Bien k
    → Bien k'
unfolding manejar_dump_memory
manejar_dump_memory-Bien pid pc nombre_cpu volcado ahora k h b =
    let (k1, toma, h1) = bind_some (lock_proceso pid k) _ h in
    let b1 = vista-Bien (lock_proceso-vista pid k toma) b in
    elim (caso (k1.mapa_procesos pid) _ _ h1) [
      | inl nada ↦ rw (← ap (λ q. q.0) (some_inj nada)) b1
      | inr (p, _, h2) ↦
          let (k2, suelta, h3) = bind_some (unlock_proceso pid k1) _ h2 in
          let ((k3, sesion), bloquea, h4) = bind_some (bloquear_proceso pid ahora k2) _ h3 in
          let b3 =
            bloquear_proceso-Bien pid ahora bloquea
              (vista-Bien (unlock_proceso-vista pid k1 suelta) b1) in
          elim (caso sesion _ _ h4) [
            | inl ninguna ↦
                let (k4, libera, fin) = bind_some (liberar_cpu nombre_cpu k3) _ ninguna in
                rw (← ap (λ q. q.0) (some_inj fin))
                  (vista-Bien (liberar_cpu-vista nombre_cpu k3 libera) b3)
            | inr (n, _, h5) ↦ volcar_bloqueado-Bien pid pc nombre_cpu volcado ahora n k3 h5 b3
          ]
    ]

pub manejar_exit-Bien :
    (pid nombre_cpu ahora : ℕ) (k : Kernel) {k' : Kernel}
    → manejar_exit pid nombre_cpu ahora k ≡ some k'
    → Bien k
    → Bien k'
unfolding manejar_exit
manejar_exit-Bien pid nombre_cpu ahora k h b =
    let (k1, acaba, libera) = bind_some (finalizar_proceso pid execute ahora k) _ h in
    vista-Bien (liberar_cpu-vista nombre_cpu k1 libera) (finalizar-Bien pid execute ahora k acaba b)

-- An EXIT that returns takes the process off the map, whatever its state is, and changes no queue but
-- that of EXECUTE: a process that is in the queue of another state by then, as one that was preempted,
-- stays in that queue without being in the map. The other processes of the map are as they were.
pub manejar_exit-fantasma :
    (pid nombre_cpu ahora : ℕ) (e : Estado) (k k' : Kernel)
    → codigo execute ≢ codigo e
    → 0 < veces pid (k.cola e)
    → manejar_exit pid nombre_cpu ahora k ≡ some k'
    → (0 < veces pid (k'.cola e))
      × (k'.cola e ≡ k.cola e)
      × (k'.mapa_procesos pid ≡ none)
      × ((a : ℕ) → pid ≢ a → k'.mapa_procesos a ≡ k.mapa_procesos a)
unfolding manejar_exit
manejar_exit-fantasma pid nombre_cpu ahora e k k' d en h =
    let (k1, acaba, libera) = bind_some (finalizar_proceso pid execute ahora k) _ h in
    let v = liberar_cpu-vista nombre_cpu k1 libera in
    let (t, otras) = finalizar_proceso-Terminado pid execute ahora k acaba in
    let igual = v.cola e ∙ otras e d in
    (rw igual en, igual, v.mapa pid ∙ t.borrado, λ a d'. v.mapa a ∙ t.los_demas a d')
