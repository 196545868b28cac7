-- ===== src/Kernel/Corto/Progreso.antt =====
-- The schedulers dispatch: a round that has a CPU and a process.
use conurban_os.Kernel.Colas.Mudanza.{soltada}
use conurban_os.Prelude.{
  ℕ, suc, ◌≡◌, refl, ap, ◌∙◌, List, [], ◌∷◌, ◌++◌, true, false, some, ==_self, poner, poner_self,
  get_elem?, Option-cases, inl, inr,
}
use conurban_os.Kernel.Estado.{ready, execute, ListaCpu, ProcesoKernel, Kernel, Mensaje}
use conurban_os.Kernel.Colas.{lock_cola, unlock_cola, lock_proceso, unlock_proceso}
use conurban_os.Kernel.Cpus.{elegir_cpu_libre, enviar_proceso_a_cpu, posicion}
use conurban_os.Kernel.Corto.{despachar, ejecutar_un_proceso_fifo, planificador_fifo}
use conurban_os.Kernel.Corto.Despacho.{
  Ejecuta, Listo, Listo-Aparte, ready_a_execute_lem, enviar_proceso-Aparte, elegir_cpu-Aparte,
}

-- Dispatched: the process executes, the CPU has got the request, and nothing else was signalled.
pub record Despachado (cpu : ListaCpu) (pid : ℕ) (p : ProcesoKernel) (resto : List ℕ)
    (k k' : Kernel) : Type 0 where
  pub ejecuta : Ejecuta pid p resto k k'
  pub pedido : k'.enviados ≡ Mensaje.dispatch_proceso cpu.ip cpu.puerto pid p.pc ∷ k.enviados
  pub cpus : k'.sem_cpus ≡ k.sem_cpus
  pub en_ready : k'.sem_procesos_en_ready ≡ k.sem_procesos_en_ready

Ejecuta-cola :
    {pid : ℕ} {p : ProcesoKernel} {resto : List ℕ} {k k1 k' : Kernel}
    → k1.cola ≡ k.cola
    → Ejecuta pid p resto k1 k'
    → Ejecuta pid p resto k k'
Ejecuta-cola {pid} igual e = record {
  lista = e.lista;
  ejecutando = e.ejecutando ∙ ap (λ f. f execute ++ pid ∷ []) igual;
  otras = λ e' d d'. e.otras e' d d' ∙ ap (λ f. f e') igual;
  libres = e.libres;
  mutex = e.mutex;
  proceso = e.proceso;
}

pub despachar_lem :
    (cpu : ListaCpu) (pid ahora : ℕ) (p : ProcesoKernel) (resto : List ℕ) (k : Kernel)
    → Listo pid p resto k
    → (k' : Kernel) × (despachar cpu pid ahora k ≡ some k') × Despachado cpu pid p resto k k'
unfolding despachar lock_proceso unlock_proceso poner
despachar_lem cpu pid ahora p resto k l =
    let mutex = poner (poner k.procesos_mutex pid true) pid false in
    let k2 : Kernel = record k { procesos_mutex = mutex } in
    let (a, envia) = enviar_proceso-Aparte cpu pid p.pc k2 in
    let l2 : Listo pid p resto k2 = record {
      cabeza = l.cabeza;
      fuera = l.fuera;
      esta = l.esta;
      mutex = poner_self (poner k.procesos_mutex pid true) pid false;
      libre_ready = l.libre_ready;
      libre_execute = l.libre_execute;
    } in
    let (k', pasa, e, s) =
      ready_a_execute_lem pid ahora p resto (enviar_proceso_a_cpu cpu pid p.pc k2)
        (Listo-Aparte a l2) in
    (
      k',
      rw (l.mutex, l.esta, ==_self pid, pasa) refl,
      record {
        ejecuta = Ejecuta-cola a.cola e;
        pedido = s.enviados ∙ envia;
        cpus = s.cpus ∙ a.cpus;
        en_ready = s.en_ready ∙ a.en_ready;
      },
    )

-- After the mutex of the ready queue was taken and given back.
Listo-soltada :
    {pid : ℕ} {p : ProcesoKernel} {resto : List ℕ} {k : Kernel}
    → Listo pid p resto k
    → Listo pid p resto (soltada ready k)
Listo-soltada l = record {
  cabeza = l.cabeza;
  fuera = l.fuera;
  esta = l.esta;
  mutex = l.mutex;
  libre_ready = refl;
  libre_execute = l.libre_execute;
}

ejecutar_fifo_lem :
    (ahora pid : ℕ) (cpu : ListaCpu) (p : ProcesoKernel) (resto : List ℕ) (k : Kernel)
    → (elegir_cpu_libre k).1 ≡ some cpu
    → Listo pid p resto k
    → (k' : Kernel) × (ejecutar_un_proceso_fifo ahora k ≡ some k') × Despachado cpu pid p resto k k'
unfolding ejecutar_un_proceso_fifo lock_cola unlock_cola
ejecutar_fifo_lem ahora pid cpu p resto k libre l =
    let k1 = (elegir_cpu_libre k).0 in
    let (a, callado) = elegir_cpu-Aparte k in
    let l1 = Listo-Aparte a l in
    let (k', da, d) = despachar_lem cpu pid ahora p resto (soltada ready k1) (Listo-soltada l1) in
    (
      k',
      rw (ejecutar_un_proceso_fifo, libre, l1.libre_ready, l1.cabeza, da) refl,
      record {
        ejecuta = Ejecuta-cola a.cola d.ejecuta;
        pedido =
            d.pedido ∙ ap (λ ms. Mensaje.dispatch_proceso cpu.ip cpu.puerto pid p.pc ∷ ms) callado;
        cpus = d.cpus ∙ a.cpus;
        en_ready = d.en_ready ∙ a.en_ready;
      },
    )

-- After the two waits.
abbrev pub esperado : ℕ → ℕ → Kernel → Kernel
esperado n m k = record k { sem_cpus = n; sem_procesos_en_ready = m }

pub elegir_cpu-esperado :
    (n m : ℕ) (k : Kernel) → (elegir_cpu_libre (esperado n m k)).1 ≡ (elegir_cpu_libre k).1
unfolding elegir_cpu_libre
elegir_cpu-esperado n m k = elim (Option-cases (posicion (λ c. c.esta_libre) 0 k.lista_cpus)) [
  | inl nada ↦ rw (elegir_cpu_libre, nada) refl
  | inr (i, hay) ↦ elim (Option-cases (get_elem? k.lista_cpus i)) [
    | inl nada ↦ rw (elegir_cpu_libre, hay, nada) refl
    | inr (c, esta) ↦ rw (elegir_cpu_libre, hay, esta) refl
  ]
]

Listo-esperado :
    {pid : ℕ} {p : ProcesoKernel} {resto : List ℕ} {k : Kernel} (n m : ℕ)
    → Listo pid p resto k
    → Listo pid p resto (esperado n m k)
Listo-esperado n m l = record {
  cabeza = l.cabeza;
  fuera = l.fuera;
  esta = l.esta;
  mutex = l.mutex;
  libre_ready = l.libre_ready;
  libre_execute = l.libre_execute;
}

-- Under FIFO, where the two semaphores have something, a CPU is free, and the process at the head of
-- the ready queue is known and in no other CPU's queue, with its mutex and those of the two queues
-- free, the round returns: the process has passed to the execute queue, its program counter has been
-- sent to the CPU, and each semaphore has one less.
pub planificador_fifo-Despachado :
    (ahora n m pid : ℕ) (cpu : ListaCpu) (p : ProcesoKernel) (resto : List ℕ) (k : Kernel)
    → k.sem_cpus ≡ suc n
    → k.sem_procesos_en_ready ≡ suc m
    → (elegir_cpu_libre k).1 ≡ some cpu
    → Listo pid p resto k
    → (k' : Kernel) × (planificador_fifo ahora k ≡ some k')
      × Ejecuta pid p resto k k'
      × (k'.enviados ≡ Mensaje.dispatch_proceso cpu.ip cpu.puerto pid p.pc ∷ k.enviados)
      × (k'.sem_cpus ≡ n)
      × (k'.sem_procesos_en_ready ≡ m)
unfolding planificador_fifo
planificador_fifo-Despachado ahora n m pid cpu p resto k hay_cpus hay_ready libre l =
    let k0 = esperado n m k in
    let libre0 = elegir_cpu-esperado n m k ∙ libre in
    let (k', da, d) = ejecutar_fifo_lem ahora pid cpu p resto k0 libre0 (Listo-esperado n m l) in
    (k', rw (hay_cpus, hay_ready) da, Ejecuta-cola refl d.ejecuta, d.pedido, d.cpus, d.en_ready)
