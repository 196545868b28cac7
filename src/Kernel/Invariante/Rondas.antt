-- ===== src/Kernel/Invariante/Rondas.antt =====
-- The rounds of the long-term scheduler keep the invariant.
use conurban_os.Prelude.{
  ℕ, zero, suc, ◌≡◌, refl, sym, ap, ◌∙◌, ◌⊎◌, inl, inr, List, [], ◌∷◌, Bool, true, false, Option,
  some, none, bind_some, ◌>>=◌, arith, some_inj, Bool-cases, ltb, length, get_elem?, if◌then◌else◌,
}
use conurban_os.Kernel.Comunicacion.{enviar}
use conurban_os.Kernel.Estado.{
  Estado, new, susp_ready, fifo, sjf, srt, sin_algoritmo, AlgoritmoCorto, Kernel, Mensaje,
  avisar_proceso_en_ready, wait,
}
use conurban_os.Kernel.Orden.{Sort}
use conurban_os.Kernel.Colas.{new_a_ready, susp_ready_a_ready, lock_cola, unlock_cola}
use conurban_os.Kernel.Largo.{
  con_mutex, ordenar_si_pmcp, ronda_new, ronda_susp_ready, bucle, pasar_desde_new,
  pasar_desde_susp_ready, pasar_procesos_a_ready, ronda_largo,
}
use conurban_os.Kernel.Invariante.{
  Bien, MismaVista, vista_refl, vista_trans, vista-Bien, lock_cola-vista, unlock_cola-vista,
}
use conurban_os.Kernel.Invariante.Cambios.{sin_mutex_a_ready-Bien}
use conurban_os.Kernel.Invariante.Comienzo.{
  con_mutex-vistas, MismasCuentas, ordenar_si_pmcp-cuentas,
}

pub cuentas-Bien : {k k' : Kernel} → MismasCuentas k k' → Bien k → Bien k'
cuentas-Bien c b = record {
  una = λ e a. rw (c.cuentas e a) (b.una e a);
  sola = λ e e' a h h'. b.sola e e' a (rw (c.cuentas e a) at h) (rw (c.cuentas e' a) at h');
  vistos = λ e a h. rw c.contador (b.vistos e a (rw (c.cuentas e a) at h));
  estado = λ e a p h en. b.estado e a p (rw (c.cuentas e a) at h) (sym (c.mapa a) ∙ en);
  clave = λ a p h. b.clave a p (sym (c.mapa a) ∙ h);
  dados = λ a p h. rw c.contador (b.dados a p (sym (c.mapa a) ∙ h));
}

avisar_lem :
    (algoritmo : AlgoritmoCorto) (k : Kernel) {k' : Kernel}
    → (elim (if ltb k.sem_procesos_en_ready 1000
        then some (suc k.sem_procesos_en_ready)
        else none) [ none ↦ none | some n ↦ some (record k { sem_procesos_en_ready = n }) ])
      ≡ some k'
    → MismaVista k k'
avisar_lem algoritmo k h = elim (Bool-cases (ltb k.sem_procesos_en_ready 1000)) [
  | inl hay ↦
      rw (← some_inj (rw hay at h)) (record { cola = λ e. refl; mapa = λ a. refl; contador = refl })
  | inr llena ↦ let x = rw llena at h in absurd (ground arith)
]

pub avisar-vista :
    (algoritmo : AlgoritmoCorto) (k : Kernel) {k' : Kernel}
    → avisar_proceso_en_ready algoritmo k ≡ some k'
    → MismaVista k k'
unfolding avisar_proceso_en_ready
avisar-vista fifo k h = avisar_lem fifo k h
avisar-vista sjf k h = avisar_lem sjf k h
avisar-vista srt k h =
    rw (← some_inj h) (record { cola = λ e. refl; mapa = λ a. refl; contador = refl })
avisar-vista sin_algoritmo k h = rw (← some_inj h) (vista_refl k)

pub enviar-vista : (m : Mensaje) (k : Kernel) → MismaVista k (enviar m k)
enviar-vista m k = record { cola = λ e. refl; mapa = λ a. refl; contador = refl }

-- A step with an answer that keeps the invariant.
abbrev Guarda : (Kernel → Option (Kernel × Bool)) → Type 0
Guarda f = (k k' : Kernel) (b : Bool) → f k ≡ some (k', b) → Bien k → Bien k'

-- What follows the answer of the memory in a round.
abbrev con_respuesta : (Kernel → Option (Kernel × Bool)) → Bool → Kernel → Option (Kernel × Bool)
con_respuesta mueve entra k =
    if entra
    then (do (k1, _) ← mueve k; k2 ← avisar_proceso_en_ready k1.algoritmo k1; some (k2, true))
    else some (k, false)

module _ (mueve : Kernel → Option (Kernel × Bool)) (mueve-Bien : Guarda mueve) where
  tras_respuesta :
      (entra : Bool) (k k' : Kernel) (b : Bool)
      → con_respuesta mueve entra k ≡ some (k', b)
      → Bien k
      → Bien k'
  tras_respuesta false k k' _ h b = rw (← ap (λ q. q.0) (some_inj h)) b
  tras_respuesta true k k' _ h b =
      let ((k1, _), m, h1) = bind_some (mueve k) _ h in
      let (k2, avisa, h2) = bind_some (avisar_proceso_en_ready k1.algoritmo k1) _ h1 in
      rw (← ap (λ q. q.0) (some_inj h2))
        (vista-Bien (avisar-vista k1.algoritmo k1 avisa) (mueve-Bien _ _ _ m b))

-- The ways out of the loop, and of a round.
vacia_o :
    (cola : List ℕ) (y : Option Kernel) {k k' : Kernel}
    → (elim cola [ [] ↦ some k | x ∷ xs ↦ y ]) ≡ some k'
    → (k ≡ k') ⊎ (y ≡ some k')
vacia_o [] y h = inl (some_inj h)
vacia_o (x ∷ xs) y h = inr h

vacia_y :
    (cola : List ℕ) (y : Option Kernel) {k k' : Kernel}
    → (elim cola [ [] ↦ y | x ∷ xs ↦ some k ]) ≡ some k'
    → (y ≡ some k') ⊎ (k ≡ k')
vacia_y [] y h = inl h
vacia_y (x ∷ xs) y h = inr (some_inj h)

tras_ronda :
    (r : Option (Kernel × Bool)) (otra : Kernel → Option Kernel) {k' : Kernel}
    → (elim r [ none ↦ none | some (k1, false) ↦ some k1 | some (k1, true) ↦ otra k1 ]) ≡ some k'
    → (r ≡ some (k', false)) ⊎ ((k1 : Kernel) × (r ≡ some (k1, true)) × (otra k1 ≡ some k'))
tras_ronda none otra h = absurd (ground arith)
tras_ronda (some (k1, false)) otra h = inl (ap (λ k2. some (k2, false)) (some_inj h))
tras_ronda (some (k1, true)) otra h = inr (k1, refl, h)

module _ (sort : Sort) where
  ronda_new-Bien : (entra : ℕ → Bool) (ahora : ℕ) → Guarda (ronda_new sort entra ahora)
  unfolding ronda_new new_a_ready
  ronda_new-Bien entra ahora k k' c h b =
      let (k1, ordena, h1) = bind_some (ordenar_si_pmcp sort new k) _ h in
      let (pid, _, h2) = bind_some (get_elem? (k1.cola new) 0) _ h1 in
      let (k2, mira, h3) = bind_some (con_mutex pid (λ k'. k') k1) _ h2 in
      let (p, _, h4) = bind_some (k2.mapa_procesos pid) _ h3 in
      let (k3, v, w) = con_mutex-vistas pid (λ k'. k') k1 mira in
      let b1 = cuentas-Bien (ordenar_si_pmcp-cuentas sort new k ordena) b in
      let b2 =
        vista-Bien
          (vista_trans (vista_trans v w)
            (enviar-vista (Mensaje.iniciar p.archivo_pseudocodigo p.tamanio p.pid) k2))
          b1 in
      tras_respuesta (new_a_ready pid ahora)
        (λ _ _ _ m. sin_mutex_a_ready-Bien new pid ahora (λ x. absurd (omega (arith, x))) m)
        (entra p.pid) _ k' c h4 b2

  ronda_susp_ready-Bien :
      (reanuda : ℕ → Bool) (ahora : ℕ) → Guarda (ronda_susp_ready sort reanuda ahora)
  unfolding ronda_susp_ready susp_ready_a_ready
  ronda_susp_ready-Bien reanuda ahora k k' c h b =
      let (k1, ordena, h1) = bind_some (ordenar_si_pmcp sort susp_ready k) _ h in
      let (pid, _, h2) = bind_some (get_elem? (k1.cola susp_ready) 0) _ h1 in
      let b1 = cuentas-Bien (ordenar_si_pmcp-cuentas sort susp_ready k ordena) b in
      tras_respuesta (susp_ready_a_ready pid ahora)
        (λ _ _ _ m. sin_mutex_a_ready-Bien susp_ready pid ahora (λ x. absurd (omega (arith, x))) m)
        (reanuda pid) _ k' c h2 (vista-Bien (enviar-vista (Mensaje.reanudar pid) k1) b1)

  bucle-Bien :
      (e : Estado) (ronda : Kernel → Option (Kernel × Bool))
      → Guarda ronda
      → (n : ℕ) (k : Kernel) {k' : Kernel} → bucle sort e ronda n k ≡ some k'
      → Bien k
      → Bien k'
  unfolding bucle
  bucle-Bien e ronda g zero k h b = elim (vacia_o (k.cola e) none h) [
    | inl igual ↦ rw (← igual) b
    | inr nada ↦ absurd (ground arith)
  ]
  bucle-Bien e ronda g (suc n) k {k'} h b = elim (vacia_o (k.cola e) _ h) [
    | inl igual ↦ rw (← igual) b
    | inr sigue ↦ elim (tras_ronda (ronda k) (bucle sort e ronda n) sigue) [
      | inl hecha ↦ g k k' false hecha b
      | inr (k1, hecha, resto) ↦ bucle-Bien e ronda g n k1 resto (g k k1 true hecha b)
    ]
  ]

  ronda_largo-Bien :
      (reanuda entra : ℕ → Bool) (ahora : ℕ) (k : Kernel) {k' : Kernel}
      → ronda_largo sort reanuda entra ahora k ≡ some k'
      → Bien k
      → Bien k'
  unfolding ronda_largo pasar_desde_new pasar_desde_susp_ready
  ronda_largo-Bien reanuda entra ahora k h b =
      let (k1, toma, h1) = bind_some (lock_cola susp_ready k) _ h in
      let (k2, pasa, h2) = bind_some (pasar_desde_susp_ready sort reanuda ahora k1) _ h1 in
      let (k3, suelta, h3) = bind_some (unlock_cola susp_ready k2) _ h2 in
      let b1 = vista-Bien (lock_cola-vista susp_ready k toma) b in
      let b2 =
        bucle-Bien susp_ready (ronda_susp_ready sort reanuda ahora)
          (ronda_susp_ready-Bien reanuda ahora) (length (k1.cola susp_ready)) k1 pasa b1 in
      let b3 = vista-Bien (unlock_cola-vista susp_ready k2 suelta) b2 in
      elim (vacia_y (k3.cola susp_ready) _ h3) [
        | inr igual ↦ rw (← igual) b3
        | inl sigue ↦
            let (k4, toma', g1) = bind_some (lock_cola new k3) _ sigue in
            let (k5, pasa', suelta') =
              bind_some (bucle sort new (ronda_new sort entra ahora) (length (k4.cola new)) k4) _
                g1 in
            vista-Bien (unlock_cola-vista new k5 suelta') (
              bucle-Bien new (ronda_new sort entra ahora) (ronda_new-Bien entra ahora)
                (length (k4.cola new)) k4 pasa' (vista-Bien (lock_cola-vista new k3 toma') b3))
      ]

  pub pasar_procesos_a_ready-Bien :
      (reanuda entra : ℕ → Bool) (ahora : ℕ) (k : Kernel) {k' : Kernel}
      → pasar_procesos_a_ready sort reanuda entra ahora k ≡ some k'
      → Bien k
      → Bien k'
  unfolding pasar_procesos_a_ready
  pasar_procesos_a_ready-Bien reanuda entra ahora k h b =
      let (n, _, h1) = bind_some (wait k.sem_pasar_proceso_a_ready) _ h in
      ronda_largo-Bien reanuda entra ahora (record k { sem_pasar_proceso_a_ready = n }) h1
        (vista-Bien (record { cola = λ e. refl; mapa = λ a. refl; contador = refl }) b)
