-- ===== src/Kernel/Corto/MasCorta.antt =====
-- SJF dispatches a process of the least estimate.
use conurban_os.Prelude.{
  ℕ, suc, ◌≡◌, refl, sym, ap, ◌∙◌, ◌<◌, List, [], ◌∷◌, ◌++◌, Bool, true, false, some, get_elem?,
  arith, Bool-cases, inl, inr, ◌==◌, ==_self,
}
use mathlib.Core.Path.{subst}
use conurban_os.Kernel.Estado.{ready, execute, ListaCpu, ProcesoKernel, Kernel, Mensaje}
use conurban_os.Kernel.Orden.{veces, IsEstricto, Sort, Estimados}
use conurban_os.Kernel.Largo.{todos}
use conurban_os.Kernel.Colas.{lock_cola, unlock_cola, con_cola}
use conurban_os.Kernel.Colas.Mudanza.{soltada}
use conurban_os.Kernel.Cpus.{elegir_cpu_libre}
use conurban_os.Kernel.Corto.{
  menor_estimado, existe, ordenar_ready_por_rafaga, ejecutar_un_proceso_sjf, planificador_sjf,
  despachar,
}
use conurban_os.Kernel.Corto.Despacho.{Listo, elegir_cpu-Aparte, Aparte}
use conurban_os.Kernel.Corto.Progreso.{despachar_lem, esperado, elegir_cpu-esperado}

-- A list in which something occurs has a first element, which occurs too.
con_primero :
    (a : ℕ) (xs : List ℕ)
    → 0 < veces a xs
    → (p : ℕ) × (resto : List ℕ) × (xs ≡ p ∷ resto) × (0 < veces p xs)
con_primero a [] h = absurd (omega arith)
con_primero a (x ∷ xs) h = (x, xs, refl, rw (==_self x) (omega arith))

todos_si :
    (test : ℕ → Bool) (xs : List ℕ)
    → ((a : ℕ) → 0 < veces a xs → test a ≡ true)
    → todos test xs ≡ true
unfolding todos
todos_si test [] h = refl
todos_si test (x ∷ xs) h =
    let resto = todos_si test xs (λ a esta.
      h a (elim (Bool-cases (x == a)) [ inl si ↦ rw si (omega arith) | inr no_ ↦ rw no_ esta ])) in
    rw (h x (rw (==_self x) (omega arith)), resto) refl

-- What SJF needs of the processes of the ready queue.
pub record Listos (k : Kernel) : Type 0 where
  pub cada :
      (a : ℕ)
      → 0 < veces a (k.cola ready)
      → ((p : ProcesoKernel) × (k.mapa_procesos a ≡ some p))
        × (k.procesos_mutex a ≡ some false)
        × (veces a (k.cola execute) ≡ 0)
  pub libre_ready : k.tomada ready ≡ false
  pub libre_execute : k.tomada execute ≡ false

module _ (sort : Sort) (est : Estimados) where
  -- The ready queue in order.
  abbrev ordenada : Kernel → List ℕ
  ordenada k = sort.slice (menor_estimado sort est k) (k.cola ready)

  abbrev tras_orden : Kernel → Kernel
  tras_orden k = con_cola ready (ordenada k) (soltada ready k)

  existen : (k : Kernel) → Listos k → todos (existe sort est k) (k.cola ready) ≡ true
  existen k l =
      todos_si (existe sort est k) (k.cola ready)
        (λ a esta. let ((p, hay), _, _) = l.cada a esta in rw (existe, hay) refl)

  -- The first of the sorted queue is ready to be dispatched.
  primero_Listo :
      (k : Kernel) (a : ℕ)
      → Listos k
      → 0 < veces a (k.cola ready)
      → (pid : ℕ) × (p : ProcesoKernel) × (resto : List ℕ) × Listo pid p resto (tras_orden k)
        × (get_elem? (ordenada k) 0 ≡ some pid)
        × (k.mapa_procesos pid ≡ some p)
  primero_Listo k a l esta =
      let (pid, resto, es, dentro) =
        con_primero a (ordenada k)
          (rw (sort.veces-slice (menor_estimado sort est k) (k.cola ready) a) esta) in
      let en = rw (sort.veces-slice (menor_estimado sort est k) (k.cola ready) pid) at dentro in
      let ((p, hay), suelto, fuera) = l.cada pid en in
      (
        pid,
        p,
        resto,
        record {
          cabeza = es;
          fuera = fuera;
          esta = hay;
          mutex = suelto;
          libre_ready = refl;
          libre_execute = l.libre_execute;
        },
        rw es refl,
        hay,
      )

  Listos-Aparte : {k k' : Kernel} → Aparte k k' → Listos k → Listos k'
  Listos-Aparte {k} {k'} a l = record {
    cada = λ x esta.
        let ((p, hay), suelto, fuera) = l.cada x (rw a.cola at esta) in
        (
          (p, ap (λ f. f x) a.mapa ∙ hay),
          ap (λ f. f x) a.mutex ∙ suelto,
          ap (λ f. veces x (f execute)) a.cola ∙ fuera,
        );
    libre_ready = ap (λ f. f ready) a.tomada ∙ l.libre_ready;
    libre_execute = ap (λ f. f execute) a.tomada ∙ l.libre_execute;
  }

  paso_sjf :
      (ahora pid : ℕ) (cpu : ListaCpu) (k : Kernel) {k' : Kernel}
      → (elegir_cpu_libre k).1 ≡ some cpu
      → (elegir_cpu_libre k).0.tomada ready ≡ false
      → todos (existe sort est (elegir_cpu_libre k).0) ((elegir_cpu_libre k).0.cola ready) ≡ true
      → get_elem? (ordenada (elegir_cpu_libre k).0) 0 ≡ some pid
      → despachar cpu pid ahora (tras_orden (elegir_cpu_libre k).0) ≡ some k'
      → ejecutar_un_proceso_sjf sort est ahora k ≡ some k'
  unfolding ejecutar_un_proceso_sjf ordenar_ready_por_rafaga lock_cola unlock_cola
  paso_sjf ahora pid cpu k libre suelta todas primero da =
      rw (ejecutar_un_proceso_sjf, libre, suelta, todas, primero, da) refl

  ejecutar_sjf_lem :
      (ahora x : ℕ) (cpu : ListaCpu) (k : Kernel)
      → (elegir_cpu_libre k).1 ≡ some cpu
      → Listos k
      → 0 < veces x (k.cola ready)
      → IsEstricto (menor_estimado sort est k) (k.cola ready)
      → (k' : Kernel) × (pid : ℕ) × (p : ProcesoKernel) × (ejecutar_un_proceso_sjf sort est ahora k
          ≡ some k')
        × (k'.enviados ≡ Mensaje.dispatch_proceso cpu.ip cpu.puerto pid p.pc ∷ k.enviados)
        × (k'.cola execute ≡ k.cola execute ++ pid ∷ [])
        × (k.mapa_procesos pid ≡ some p)
        × ((i a : ℕ)
            → get_elem? (k.cola ready) i ≡ some a
            → menor_estimado sort est k a pid ≡ false)
  ejecutar_sjf_lem ahora x cpu k libre l esta orden =
      let k1 = (elegir_cpu_libre k).0 in
      let (a, callado) = elegir_cpu-Aparte k in
      let l1 = Listos-Aparte a l in
      let esta1 : 0 < veces x (k1.cola ready) = rw a.cola esta in
      let mismo : menor_estimado sort est k1 ≡ menor_estimado sort est k =
        ap (λ f. menor_estimado sort est (record k { mapa_procesos = f })) a.mapa in
      let orden1 : IsEstricto (menor_estimado sort est k1) (k1.cola ready) =
        subst (λ g. IsEstricto g (k1.cola ready)) (sym mismo)
          (subst (λ c. IsEstricto (menor_estimado sort est k) (c ready)) (sym a.cola) orden) in
      let (pid, p, resto, listo, primero, hay) = primero_Listo k1 x l1 esta1 in
      let (k', da, d) = despachar_lem cpu pid ahora p resto (tras_orden k1) listo in
      (
        k',
        pid,
        p,
        paso_sjf ahora pid cpu k libre l1.libre_ready (existen k1 l1) primero da,
        d.pedido ∙ ap (λ ms. Mensaje.dispatch_proceso cpu.ip cpu.puerto pid p.pc ∷ ms) callado,
        d.ejecuta.ejecutando ∙ ap (λ f. f execute ++ pid ∷ []) a.cola,
        ap (λ f. f pid) (sym a.mapa) ∙ hay,
        λ i b en.
            subst (λ g. g b pid ≡ false) mismo
              (sort.primero (menor_estimado sort est k1) (k1.cola ready) b pid i orden1 primero
                (ap (λ f. get_elem? (f ready) i) a.cola ∙ en)),
      )

  -- Under SJF, where the two semaphores have something, a CPU is free, the ready queue is not empty,
  -- its processes are known and in no other CPU's queue, with their mutexes and those of the two queues
  -- free, and the comparison of the estimates is a strict weak order on the ready processes: the round returns, and it has
  -- sent to the CPU, and put in the execute queue, a process such that no ready process has a lesser
  -- estimate.
  pub planificador_sjf-Menor :
      (ahora n m x : ℕ) (cpu : ListaCpu) (k : Kernel)
      → k.sem_cpus ≡ suc n
      → k.sem_procesos_en_ready ≡ suc m
      → (elegir_cpu_libre k).1 ≡ some cpu
      → Listos k
      → 0 < veces x (k.cola ready)
      → IsEstricto (menor_estimado sort est k) (k.cola ready)
      → (k' : Kernel) × (pid : ℕ) × (p : ProcesoKernel) × (planificador_sjf sort est ahora k
          ≡ some k')
        × (k'.enviados ≡ Mensaje.dispatch_proceso cpu.ip cpu.puerto pid p.pc ∷ k.enviados)
        × (k'.cola execute ≡ k.cola execute ++ pid ∷ [])
        × (k.mapa_procesos pid ≡ some p)
        × ((i a : ℕ)
            → get_elem? (k.cola ready) i ≡ some a
            → menor_estimado sort est k a pid ≡ false)
  unfolding planificador_sjf
  planificador_sjf-Menor ahora n m x cpu k hay_cpus hay_ready libre l esta orden =
      let k0 = esperado n m k in
      let libre0 = elegir_cpu-esperado n m k ∙ libre in
      let l0 : Listos k0 = record {
        cada = l.cada;
        libre_ready = l.libre_ready;
        libre_execute = l.libre_execute;
      } in
      let (k', pid, p, da, pedido, pone, hay, menor) =
        ejecutar_sjf_lem ahora x cpu k0 libre0 l0 esta orden in
      (k', pid, p, rw (hay_cpus, hay_ready) da, pedido, pone, hay, menor)
