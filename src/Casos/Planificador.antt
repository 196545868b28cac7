-- ===== src/Casos/Planificador.antt =====
-- The schedulers of the kernel at concrete inputs.
use conurban_os.Prelude.{
  ℕ, ◌⊎◌, inl, inr, ltb, get_elem?, ◌<◌, ◌≡◌, refl, ℕ_discrete, sym, ap, ◌∙◌, List, [], ◌∷◌, Bool,
  true, false, some, none, arith, length, poner,
}
use conurban_os.Kernel.Estado.{
  Estado, new, ready, execute, susp_ready, ProcesoKernel, ListaCpu, Kernel, Mensaje,
}
use conurban_os.Kernel.Orden.{IsEstricto, est_sgte, veces}
use conurban_os.Kernel.Largo.{ronda_new, ronda_susp_ready, bucle}
use conurban_os.Kernel.Cpus.{elegir_cpu_libre, posicion}
use conurban_os.Kernel.Corto.{planificador_fifo, planificador_sjf, menor_estimado, estimado}
use conurban_os.Kernel.Corto.MasCorta.{planificador_sjf-Menor}
use conurban_os.Kernel.Corto.Despacho.{Ejecuta}
use conurban_os.Kernel.Corto.Progreso.{planificador_fifo-Despachado}
use conurban_os.Kernel.Invariante.Terminacion.{Vuelta, bucle_new-Vuelta}
use conurban_os.Casos.Ordenes.{burbuja, numeros}
use conurban_os.Casos.Colas.{vacio}

abbrev pub proceso : Estado → ℕ → ProcesoKernel
proceso e pid = record {
  pid = pid;
  pc = 2;
  me = λ e. 1;
  mt = λ e. 0;
  estado_actual = e;
  rafagas = [];
  ultimo_cambio_de_estado = 10;
  archivo_pseudocodigo = "a";
  tamanio = 64;
}

abbrev en_nuevos : Estado → List ℕ
en_nuevos new = 0 ∷ 1 ∷ []
en_nuevos _ = []

abbrev con_nuevos : Kernel
con_nuevos = record vacio {
  cola = en_nuevos;
  mapa_procesos = λ pid. some (proceso new pid);
  procesos_mutex = λ pid. some false;
}

bucle_new-Vuelta_example :
    Vuelta new (ronda_new burbuja (λ pid. true) 7) con_nuevos (
      bucle burbuja new
        (ronda_new burbuja (λ pid. true) 7)
        (length (con_nuevos.cola new))
        con_nuevos)
    × Vuelta susp_ready (ronda_susp_ready burbuja (λ pid. false) 7) con_nuevos (
        bucle burbuja susp_ready
          (ronda_susp_ready burbuja (λ pid. false) 7)
          (length (con_nuevos.cola susp_ready))
          con_nuevos)
bucle_new-Vuelta_example = bucle_new-Vuelta burbuja (λ pid. false) (λ pid. true) 7 con_nuevos

abbrev pub en_listos : Estado → List ℕ
en_listos ready = 3 ∷ 4 ∷ []
en_listos execute = 9 ∷ []
en_listos _ = []

abbrev pub una_cpu : ListaCpu
una_cpu = record { nombre = 5; ip = 6; puerto = 7; esta_libre = true; pid_actual = 0 }

abbrev pub con_listos : Kernel
con_listos = record vacio {
  cola = en_listos;
  mapa_procesos = λ pid. some (proceso ready pid);
  procesos_mutex = λ pid. some false;
  lista_cpus = una_cpu ∷ [];
  sem_cpus = 1;
  sem_procesos_en_ready = 2;
}

hay_libre : (elegir_cpu_libre con_listos).1 ≡ some (record una_cpu { esta_libre = false })
unfolding elegir_cpu_libre posicion
hay_libre = refl

planificador_fifo-Despachado_example :
    (k' : Kernel) × (planificador_fifo 20 con_listos ≡ some k')
    × Ejecuta 3 (proceso ready 3) (4 ∷ []) con_listos k'
    × (k'.enviados ≡ Mensaje.dispatch_proceso 6 7 3 2 ∷ [])
    × (k'.sem_cpus ≡ 0)
    × (k'.sem_procesos_en_ready ≡ 1)
planificador_fifo-Despachado_example =
    planificador_fifo-Despachado 20 0 1 3 (record una_cpu { esta_libre = false }) (proceso ready 3)
      (4 ∷ []) con_listos refl refl hay_libre
      (record {
        cabeza = refl;
        fuera = refl;
        esta = refl;
        mutex = refl;
        libre_ready = refl;
        libre_execute = refl;
      })

-- The process 3 has no burst yet, and the process 4 had one of 7.
abbrev con_rafagas : Kernel
con_rafagas = record con_listos {
  mapa_procesos =
      poner (poner (λ pid. none) 3 (proceso ready 3)) 4
        (record (proceso ready 4) { rafagas = 7 ∷ [] });
}

uno_de : (a : ℕ) → 0 < veces a (3 ∷ 4 ∷ []) → (a ≡ 3) ⊎ (a ≡ 4)
uno_de a h = elim (ℕ_discrete 3 a) [
  | yes es ↦ inl (sym es)
  | no d ↦ elim (ℕ_discrete 4 a) [ yes es ↦ inr (sym es) | no d' ↦ absurd (ground arith) ]
]

los_dos :
    (a : ℕ)
    → 0 < veces a (con_rafagas.cola ready)
    → ((p : ProcesoKernel) × (con_rafagas.mapa_procesos a ≡ some p))
      × (con_rafagas.procesos_mutex a ≡ some false)
      × (veces a (con_rafagas.cola execute) ≡ 0)
unfolding poner
los_dos a h = elim (uno_de a h) [
  | inl es ↦ rw es ((proceso ready 3, refl), refl, refl)
  | inr es ↦ rw es ((record (proceso ready 4) { rafagas = 7 ∷ [] }, refl), refl, refl)
]

su_estimado :
    (a : ℕ)
    → 0 < veces a (con_rafagas.cola ready)
    → (n : ℕ) × (estimado burbuja numeros con_rafagas a ≡ some n)
unfolding poner est_sgte
su_estimado a h = elim (uno_de a h) [ inl es ↦ rw es (10, refl) | inr es ↦ rw es (7, refl) ]

menor_lem :
    (a b x y : ℕ)
    → estimado burbuja numeros con_rafagas a ≡ some x
    → estimado burbuja numeros con_rafagas b ≡ some y
    → menor_estimado burbuja numeros con_rafagas a b ≡ ltb x y
menor_lem a b x y ex ey =
    ap {B = Bool}
      (λ o. elim o [
        | none ↦ false
        | some x' ↦ elim (estimado burbuja numeros con_rafagas b) [
          | none ↦ false
          | some y' ↦ ltb x' y'
        ]
      ])
      ex
    ∙ ap {B = Bool} (λ o. elim o [ none ↦ false | some y' ↦ ltb x y' ]) ey

en_orden : IsEstricto (menor_estimado burbuja numeros con_rafagas) (con_rafagas.cola ready)
en_orden = record {
  asimetrico = λ a b ha hb h.
      let (x, ex) = su_estimado a ha in
      let (y, ey) = su_estimado b hb in
      let h' : ltb x y ≡ true = sym (menor_lem a b x y ex ey) ∙ h in
      menor_lem b a y x ey ex ∙ ground arith;
  negativo = λ a b c ha hb hc h g.
      let (x, ex) = su_estimado a ha in
      let (y, ey) = su_estimado b hb in
      let (z, ez) = su_estimado c hc in
      let h' : ltb x y ≡ false = sym (menor_lem a b x y ex ey) ∙ h in
      let g' : ltb y z ≡ false = sym (menor_lem b c y z ey ez) ∙ g in
      menor_lem a c x z ex ez ∙ ground arith;
}

hay_libre_sjf : (elegir_cpu_libre con_rafagas).1 ≡ some (record una_cpu { esta_libre = false })
unfolding elegir_cpu_libre posicion
hay_libre_sjf = refl

planificador_sjf-Menor_example :
    (k' : Kernel) × (pid : ℕ) × (p : ProcesoKernel) × (planificador_sjf burbuja numeros 20
        con_rafagas
      ≡ some k')
    × (k'.enviados ≡ Mensaje.dispatch_proceso 6 7 pid p.pc ∷ [])
    × (k'.cola execute ≡ 9 ∷ pid ∷ [])
    × (con_rafagas.mapa_procesos pid ≡ some p)
    × ((i a : ℕ)
        → get_elem? (con_rafagas.cola ready) i ≡ some a
        → menor_estimado burbuja numeros con_rafagas a pid ≡ false)
planificador_sjf-Menor_example =
    planificador_sjf-Menor burbuja numeros 20 0 1 3 (record una_cpu { esta_libre = false })
      con_rafagas refl refl hay_libre_sjf
      (record { cada = los_dos; libre_ready = refl; libre_execute = refl }) (omega arith) en_orden
