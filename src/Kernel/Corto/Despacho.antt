-- ===== src/Kernel/Corto/Despacho.antt =====
-- A round of the schedulers that have what they wait for.
use conurban_os.Prelude.{
  ℕ, suc, ◌≡◌, ◌≢◌, refl, ap, ◌∙◌, List, [], ◌∷◌, ◌++◌, true, false, some, arith, ==_self, poner,
  poner_self, get_elem?, lt→ltb, Option-cases, inl, inr, ◌&&◌, ◌==◌,
}
use conurban_os.Kernel.Estado.{
  Estado, ready, execute, codigo, ListaCpu, ProcesoKernel, Kernel, Mensaje,
}
use conurban_os.Kernel.Orden.{veces}
use conurban_os.Kernel.Colas.{
  lock_cola, unlock_cola, lock_proceso, unlock_proceso, ready_a_execute, pasar_con_mutex,
  cambiar_estado, con_cola, con_metricas, eliminar_proceso_de_cola, agregar_proceso_a_cola,
}
use conurban_os.Kernel.Colas.Mudanza.{agregar_lem, soltada, en_estado_ne}
use conurban_os.Kernel.Colas.Referencia.{esta, colas-referencia}
use conurban_os.Kernel.Cpus.{elegir_cpu_libre, enviar_proceso_a_cpu, posicion}

-- The first process of the ready queue has passed to the end of the execute queue, in its new state;
-- its mutex and those of the queues are free.
pub record Ejecuta (pid : ℕ) (p : ProcesoKernel) (resto : List ℕ) (k k' : Kernel) : Type 0 where
  pub lista : k'.cola ready ≡ resto
  pub ejecutando : k'.cola execute ≡ k.cola execute ++ pid ∷ []
  pub otras :
      (e : Estado) → codigo ready ≢ codigo e → codigo execute ≢ codigo e → k'.cola e ≡ k.cola e
  pub libres : (k'.tomada ready ≡ false) × (k'.tomada execute ≡ false)
  pub mutex : k'.procesos_mutex pid ≡ some false
  pub proceso :
      (q : ProcesoKernel) × (k'.mapa_procesos pid ≡ some q)
      × (q.estado_actual ≡ execute)
      × (q.pc ≡ p.pc)

eliminar_cabeza :
    (pid : ℕ) (resto : List ℕ) → eliminar_proceso_de_cola (pid ∷ resto) pid ≡ (resto, true)
eliminar_cabeza pid resto =
    (colas-referencia (pid ∷ resto) pid).0
    ∙ rw (==_self pid, lt→ltb 0 (suc (veces pid resto)) (omega arith)) refl

agrega_nuevo :
    (pid : ℕ) (cola : List ℕ)
    → veces pid cola ≡ 0
    → agregar_proceso_a_cola cola pid ≡ (cola ++ pid ∷ [], true)
agrega_nuevo pid cola fuera = (colas-referencia cola pid).1 ∙ rw fuera refl

-- The requests that were sent, and the semaphores of the scheduler, are the same.
pub record MismasSeniales (k k' : Kernel) : Type 0 where
  pub enviados : k'.enviados ≡ k.enviados
  pub cpus : k'.sem_cpus ≡ k.sem_cpus
  pub en_ready : k'.sem_procesos_en_ready ≡ k.sem_procesos_en_ready

-- What a scheduler needs of the process at the head of the ready queue.
pub record Listo (pid : ℕ) (p : ProcesoKernel) (resto : List ℕ) (k : Kernel) : Type 0 where
  pub cabeza : k.cola ready ≡ pid ∷ resto
  pub fuera : veces pid (k.cola execute) ≡ 0
  pub esta : k.mapa_procesos pid ≡ some p
  pub mutex : k.procesos_mutex pid ≡ some false
  pub libre_ready : k.tomada ready ≡ false
  pub libre_execute : k.tomada execute ≡ false

pub ready_a_execute_lem :
    (pid ahora : ℕ) (p : ProcesoKernel) (resto : List ℕ) (k : Kernel)
    → Listo pid p resto k
    → (k' : Kernel) × (ready_a_execute pid ahora k ≡ some (k', true))
      × Ejecuta pid p resto k k'
      × MismasSeniales k k'
unfolding ready_a_execute lock_cola unlock_cola lock_proceso unlock_proceso pasar_con_mutex
    cambiar_estado poner
ready_a_execute_lem pid ahora p resto k l =
    let q = con_metricas ready ahora (record p { estado_actual = execute }) in
    let mutex = poner k.procesos_mutex pid true in
    let k1 : Kernel = record k { procesos_mutex = mutex } in
    let k2 : Kernel = con_cola ready resto (soltada ready k1) in
    let k3 : Kernel = con_cola execute (k.cola execute ++ pid ∷ []) (soltada execute k2) in
    let k' : Kernel = record k3 {
      mapa_procesos = poner k.mapa_procesos pid q;
      procesos_mutex = poner mutex pid false;
    } in
    (
      k',
      rw
          (
            l.mutex,
            l.libre_ready,
            l.cabeza,
            eliminar_cabeza pid resto,
            agregar_lem execute pid k2 l.libre_execute,
            agrega_nuevo pid (k.cola execute) l.fuera,
            l.esta,
            ==_self pid,
          )
          refl,
      record {
        lista = refl;
        ejecutando = refl;
        otras = λ e d d'.
            en_estado_ne k2.cola execute e (k.cola execute ++ pid ∷ []) d'
            ∙ en_estado_ne k.cola ready e resto d;
        libres = (refl, refl);
        mutex = poner_self mutex pid false;
        proceso = (q, poner_self k.mapa_procesos pid q, refl, refl);
      },
      record { enviados = refl; cpus = refl; en_ready = refl },
    )

-- Steps that touch only the list of CPUs and what was sent.
pub record Aparte (k k' : Kernel) : Type 0 where
  pub cola : k'.cola ≡ k.cola
  pub tomada : k'.tomada ≡ k.tomada
  pub mapa : k'.mapa_procesos ≡ k.mapa_procesos
  pub mutex : k'.procesos_mutex ≡ k.procesos_mutex
  pub cpus : k'.sem_cpus ≡ k.sem_cpus
  pub en_ready : k'.sem_procesos_en_ready ≡ k.sem_procesos_en_ready

aparte :
    (k : Kernel) (cs : List ListaCpu) (ms : List Mensaje)
    → Aparte k (record k { lista_cpus = cs; enviados = ms })
aparte k cs ms = record {
  cola = refl;
  tomada = refl;
  mapa = refl;
  mutex = refl;
  cpus = refl;
  en_ready = refl;
}

pub Listo-Aparte :
    {pid : ℕ} {p : ProcesoKernel} {resto : List ℕ} {k k' : Kernel}
    → Aparte k k'
    → Listo pid p resto k
    → Listo pid p resto k'
Listo-Aparte {pid} a l = record {
  cabeza = ap (λ f. f ready) a.cola ∙ l.cabeza;
  fuera = ap (λ f. veces pid (f execute)) a.cola ∙ l.fuera;
  esta = ap (λ f. f pid) a.mapa ∙ l.esta;
  mutex = ap (λ f. f pid) a.mutex ∙ l.mutex;
  libre_ready = ap (λ f. f ready) a.tomada ∙ l.libre_ready;
  libre_execute = ap (λ f. f execute) a.tomada ∙ l.libre_execute;
}

pub enviar_proceso-Aparte :
    (cpu : ListaCpu) (pid pc : ℕ) (k : Kernel)
    → Aparte k (enviar_proceso_a_cpu cpu pid pc k)
      × ((enviar_proceso_a_cpu cpu pid pc k).enviados
          ≡ Mensaje.dispatch_proceso cpu.ip cpu.puerto pid pc ∷ k.enviados)
unfolding enviar_proceso_a_cpu
enviar_proceso-Aparte cpu pid pc k =
    elim (Option-cases
      (posicion (λ c. (c.ip == cpu.ip) && (c.puerto == cpu.puerto)) 0 k.lista_cpus)) [
        | inl nada ↦ rw (enviar_proceso_a_cpu, nada) (aparte k _ _, refl)
        | inr (i, hay) ↦ elim (Option-cases (get_elem? k.lista_cpus i)) [
          | inl nada ↦ rw (enviar_proceso_a_cpu, hay, nada) (aparte k _ _, refl)
          | inr (c, esta) ↦ rw (enviar_proceso_a_cpu, hay, esta) (aparte k _ _, refl)
        ]
      ]

pub elegir_cpu-Aparte :
    (k : Kernel) → Aparte k (elegir_cpu_libre k).0 × ((elegir_cpu_libre k).0.enviados ≡ k.enviados)
unfolding elegir_cpu_libre
elegir_cpu-Aparte k = elim (Option-cases (posicion (λ c. c.esta_libre) 0 k.lista_cpus)) [
  | inl nada ↦ rw (elegir_cpu_libre, nada) (aparte k _ _, refl)
  | inr (i, hay) ↦ elim (Option-cases (get_elem? k.lista_cpus i)) [
    | inl nada ↦ rw (elegir_cpu_libre, hay, nada) (aparte k _ _, refl)
    | inr (c, esta) ↦ rw (elegir_cpu_libre, hay, esta) (aparte k _ _, refl)
  ]
]
