-- ===== src/Kernel/Invariante/Terminacion.antt =====
-- The loops of the long-term scheduler end: each round that goes on takes a process off the queue.
use conurban_os.Kernel.Comunicacion.{
  enviar_inicializar_proceso_a_memoria, enviar_reanudar_proceso_a_memoria,
}
use conurban_os.Prelude.{
  ℕ, zero, suc, ◌<◌, ◌≤◌, ◌≡◌, ◌≢◌, refl, sym, ap, ◌∙◌, inl, inr, List, [], ◌∷◌, Bool, true, false,
  Option, some, none, bind_some, arith, some_inj, Bool-cases, get_elem?, length, ◌==◌, ==_self,
  ℕ_discrete, lt→ltb, ◌⊎◌,
}
use conurban_os.Kernel.Estado.{
  Estado, new, ready, susp_ready, codigo, Kernel, avisar_proceso_en_ready,
}
use conurban_os.Kernel.Orden.{veces, Sort}
use conurban_os.Kernel.Colas.{
  lock_proceso, unlock_proceso, agregar_en, cambiar_estado, pasar_con_mutex, sin_mutex_a_ready,
  new_a_ready, susp_ready_a_ready, con_cola, eliminar_proceso_de_cola, agregar_proceso_a_cola,
}
use conurban_os.Kernel.Colas.Mudanza.{en_estado_self}
use conurban_os.Kernel.Colas.Referencia.{quitar, esta, colas-referencia, veces-quitar}
use conurban_os.Kernel.Largo.{con_mutex, ordenar_si_pmcp, ronda_new, ronda_susp_ready, bucle}
use conurban_os.Kernel.Invariante.{lock_proceso-vista, unlock_proceso-vista, si_caso}
use conurban_os.Kernel.Invariante.Efectos.{con_lock-efecto}
use conurban_os.Kernel.Invariante.Mudanzas.{cambiar_estado-efecto}
use conurban_os.Kernel.Invariante.Comienzo.{con_mutex-vistas, ordenar_si_pmcp-cuentas}
use conurban_os.Kernel.Invariante.Rondas.{avisar-vista}

-- Queues with the same counts have the same length.
length-quitar :
    (pid : ℕ) (cola : List ℕ) → 0 < veces pid cola → suc (length (quitar pid cola)) ≡ length cola
length-quitar pid [] h = absurd (omega arith)
length-quitar pid (x ∷ cola) h = elim (Bool-cases (x == pid)) [
  | inl es ↦ rw es refl
  | inr no_es ↦ rw no_es (ap suc (length-quitar pid cola (rw no_es at h)))
]

sin_veces : (cola : List ℕ) → ((a : ℕ) → veces a cola ≡ 0) → length cola ≡ 0
sin_veces [] h = refl
sin_veces (x ∷ cola) h = let n = h x in absurd (ground (arith, ==_self x))

veces-length : (xs ys : List ℕ) → ((a : ℕ) → veces a xs ≡ veces a ys) → length xs ≡ length ys
veces-length [] ys h = sym (sin_veces ys (λ a. sym (h a)))
veces-length (x ∷ xs) ys h =
    let n = h x in
    let uno : 0 < veces x ys = ground (arith, ==_self x) in
    let (resto, otros) = veces-quitar x ys uno in
    ap suc (
      veces-length xs (quitar x ys) (λ a.
        let m = h a in
        elim (ℕ_discrete x a) [
          | yes es ↦ rw (← es) (ground (arith, ==_self x))
          | no d ↦ let o = otros a d in ground arith
        ]))
    ∙ length-quitar x ys uno

pasar_con_mutex-cola :
    (viejo nuevo e : Estado) (pid ahora : ℕ) (k : Kernel) {k' : Kernel} {b : Bool}
    → codigo nuevo ≢ codigo e
    → pasar_con_mutex viejo nuevo pid ahora k ≡ some (k', b)
    → k'.cola e ≡ k.cola e
unfolding pasar_con_mutex agregar_en
pasar_con_mutex-cola viejo nuevo e pid ahora k d h =
    let ((k1, agregado), pone, h1) = bind_some (agregar_en nuevo pid k) _ h in
    let (c, _) = con_lock-efecto nuevo (λ cola. agregar_proceso_a_cola cola pid) pone in
    elim (si_caso agregado _ _ h1) [
      | inl (_, h2) ↦
          let (k2, cambia, h3) = bind_some (cambiar_estado pid viejo nuevo ahora k1) _ h2 in
          let (k3, suelta, fin) = bind_some (unlock_proceso pid k2) _ h3 in
          let r = (cambiar_estado-efecto pid viejo nuevo ahora cambia).retocado in
          ap (λ q. q.0.cola e) (sym (some_inj fin))
          ∙ (unlock_proceso-vista pid k2 suelta).cola e
          ∙ r.cola e
          ∙ c.otras e d
      | inr (_, igual) ↦ ap (λ q. q.0.cola e) (sym (some_inj igual)) ∙ c.otras e d
    ]

-- The head of a queue is in it.
primero_esta : (cola : List ℕ) (pid : ℕ) → get_elem? cola 0 ≡ some pid → 0 < veces pid cola
primero_esta [] pid h = absurd (ground arith)
primero_esta (x ∷ cola) pid h = rw (some_inj h, ==_self pid) (omega arith)

sin_mutex_a_ready-length :
    (viejo : Estado) (pid ahora : ℕ) (k : Kernel) {k' : Kernel} {b : Bool}
    → codigo ready ≢ codigo viejo
    → get_elem? (k.cola viejo) 0 ≡ some pid
    → sin_mutex_a_ready viejo pid ahora k ≡ some (k', b)
    → suc (length (k'.cola viejo)) ≡ length (k.cola viejo)
unfolding sin_mutex_a_ready
sin_mutex_a_ready-length viejo pid ahora k {k'} d cabeza h =
    let (k1, toma, h1) = bind_some (lock_proceso pid k) _ h in
    let igual = (lock_proceso-vista pid k toma).cola viejo in
    let pos = primero_esta (k.cola viejo) pid cabeza in
    let ref = (colas-referencia (k1.cola viejo) pid).0 in
    let r = eliminar_proceso_de_cola (k1.cola viejo) pid in
    let saca : r.0 ≡ quitar pid (k.cola viejo) = ap (λ q. q.0) ref ∙ ap (quitar pid) igual in
    let si : r.1 ≡ true =
      ap (λ q. q.1) ref ∙ ap (esta pid) igual ∙ lt→ltb 0 (veces pid (k.cola viejo)) pos in
    elim (si_caso r.1 _ _ h1) [
      | inl (_, pasa) ↦
          let c = pasar_con_mutex-cola viejo ready viejo pid ahora (con_cola viejo r.0 k1) d pasa in
          let c' : k'.cola viejo ≡ quitar pid (k.cola viejo) =
            c ∙ en_estado_self k1.cola viejo r.0 ∙ saca in
          ap (λ q. suc (length q)) c' ∙ length-quitar pid (k.cola viejo) pos
      | inr (no_, _) ↦ absurd (ground arith)
    ]

-- A round that goes on shortens the queue.
abbrev Acorta : Estado → (Kernel → Option (Kernel × Bool)) → Type 0
Acorta e ronda =
    (k k' : Kernel) → ronda k ≡ some (k', true) → suc (length (k'.cola e)) ≡ length (k.cola e)

module _ (sort : Sort) where
  ordenar-length :
      (e e' : Estado) (k : Kernel) {k' : Kernel}
      → ordenar_si_pmcp sort e k ≡ some k'
      → length (k'.cola e') ≡ length (k.cola e')
  ordenar-length e e' k {k'} h =
      let c = ordenar_si_pmcp-cuentas sort e k h in
      veces-length (k'.cola e') (k.cola e') (c.cuentas e')

  ronda_new-Acorta : (entra : ℕ → Bool) (ahora : ℕ) → Acorta new (ronda_new sort entra ahora)
  unfolding ronda_new new_a_ready
  ronda_new-Acorta entra ahora k k' h =
      let (k1, ordena, h1) = bind_some (ordenar_si_pmcp sort new k) _ h in
      let (pid, cabeza, h2) = bind_some (get_elem? (k1.cola new) 0) _ h1 in
      let (k2, mira, h3) = bind_some (con_mutex pid (λ k'. k') k1) _ h2 in
      let (p, _, h4) = bind_some (k2.mapa_procesos pid) _ h3 in
      let (k3, v, w) = con_mutex-vistas pid (λ k'. k') k1 mira in
      let igual : k2.cola new ≡ k1.cola new = w.cola new ∙ v.cola new in
      elim (si_caso (entra p.pid) _ _ h4) [
        | inr (_, no_) ↦ absurd (ground arith)
        | inl (_, h5) ↦
            let ((k4, s), pasa, h6) =
              bind_some (new_a_ready pid ahora (enviar_inicializar_proceso_a_memoria entra p k2).0)
                _ h5 in
            let (k5, avisa, fin) = bind_some (avisar_proceso_en_ready k4.algoritmo k4) _ h6 in
            let l =
              sin_mutex_a_ready-length new pid ahora
                (enviar_inicializar_proceso_a_memoria entra p k2).0 (λ x. absurd (omega (arith, x)))
                (rw igual cabeza) pasa in
            ap (λ q. suc (length (q.0.cola new))) (sym (some_inj fin))
            ∙ ap (λ q. suc (length q)) ((avisar-vista k4.algoritmo k4 avisa).cola new)
            ∙ l
            ∙ ap length igual
            ∙ ordenar-length new new k ordena
      ]

  ronda_susp_ready-Acorta :
      (reanuda : ℕ → Bool) (ahora : ℕ) → Acorta susp_ready (ronda_susp_ready sort reanuda ahora)
  unfolding ronda_susp_ready susp_ready_a_ready
  ronda_susp_ready-Acorta reanuda ahora k k' h =
      let (k1, ordena, h1) = bind_some (ordenar_si_pmcp sort susp_ready k) _ h in
      let (pid, cabeza, h2) = bind_some (get_elem? (k1.cola susp_ready) 0) _ h1 in
      elim (si_caso (reanuda pid) _ _ h2) [
        | inr (_, no_) ↦ absurd (ground arith)
        | inl (_, h3) ↦
            let k2 = (enviar_reanudar_proceso_a_memoria reanuda pid k1).0 in
            let ((k4, s), pasa, h4) = bind_some (susp_ready_a_ready pid ahora k2) _ h3 in
            let (k5, avisa, fin) = bind_some (avisar_proceso_en_ready k4.algoritmo k4) _ h4 in
            ap (λ q. suc (length (q.0.cola susp_ready))) (sym (some_inj fin))
            ∙ ap (λ q. suc (length q)) ((avisar-vista k4.algoritmo k4 avisa).cola susp_ready)
            ∙ sin_mutex_a_ready-length susp_ready pid ahora k2 (λ x. absurd (omega (arith, x)))
                cabeza pasa
            ∙ ordenar-length susp_ready susp_ready k ordena
      ]

sin_largo : (cola : List ℕ) → length cola ≤ 0 → cola ≡ []
sin_largo [] h = refl
sin_largo (x ∷ cola) h = absurd (omega arith)

con_cabeza : (cola : List ℕ) → (cola ≡ []) ⊎ ((x : ℕ) × (xs : List ℕ) × (cola ≡ x ∷ xs))
con_cabeza [] = inl refl
con_cabeza (x ∷ xs) = inr (x, xs, refl)

-- The meaning of the loop, without fuel: it ends with a queue that is empty, or with the first round
-- that does not go on; `none` is a round that panics or waits.
pub data Vuelta (e : Estado) (ronda : Kernel → Option (Kernel × Bool))
    : Kernel → Option Kernel → Type 0 where
  vacia : (k : Kernel) → k.cola e ≡ [] → Vuelta e ronda k (some k)
  corta : (k k' : Kernel) → k.cola e ≢ [] → ronda k ≡ some (k', false) → Vuelta e ronda k (some k')
  detenida : (k : Kernel) → k.cola e ≢ [] → ronda k ≡ none → Vuelta e ronda k none
  sigue :
      (k k1 : Kernel) (r : Option Kernel)
      → k.cola e ≢ []
      → ronda k ≡ some (k1, true)
      → Vuelta e ronda k1 r
      → Vuelta e ronda k r

-- The step of the loop, for a value of its round.
abbrev tras : (Kernel → Option Kernel) → Option (Kernel × Bool) → Option Kernel
tras otra r = elim r [ none ↦ none | some (k1, false) ↦ some k1 | some (k1, true) ↦ otra k1 ]

module _ (sort : Sort) (e : Estado) (ronda : Kernel → Option (Kernel × Bool)) where
  bucle_vacio : (n : ℕ) (k : Kernel) → k.cola e ≡ [] → bucle sort e ronda n k ≡ some k
  unfolding bucle
  bucle_vacio zero k nada = rw (bucle, nada) refl
  bucle_vacio (suc n) k nada = rw (bucle, nada) refl

  bucle_paso :
      (n : ℕ) (k : Kernel) (x : ℕ) (xs : List ℕ)
      → k.cola e ≡ x ∷ xs
      → bucle sort e ronda (suc n) k ≡ tras (bucle sort e ronda n) (ronda k)
  unfolding bucle
  bucle_paso n k x xs hay = rw (bucle, hay) refl

  -- One step, where the rest of the loop is known.
  un_paso :
      (n : ℕ) (k : Kernel) (x : ℕ) (xs : List ℕ)
      → k.cola e ≡ x ∷ xs
      → ((k1 : Kernel) → ronda k ≡ some (k1, true) → Vuelta e ronda k1 (bucle sort e ronda n k1))
      → (r : Option (Kernel × Bool)) → ronda k ≡ r
      → Vuelta e ronda k (tras (bucle sort e ronda n) r)
  un_paso n k x xs hay resto none da = Vuelta.detenida k (λ z. cc) da
  un_paso n k x xs hay resto (some (k1, false)) da = Vuelta.corta k k1 (λ z. cc) da
  un_paso n k x xs hay resto (some (k1, true)) da =
      Vuelta.sigue k k1 (bucle sort e ronda n k1) (λ z. cc) da (resto k1 da)

  bucle-Vuelta :
      Acorta e ronda
      → (n : ℕ) (k : Kernel) → length (k.cola e) ≤ n
      → Vuelta e ronda k (bucle sort e ronda n k)
  bucle-Vuelta a zero k h =
      let nada = sin_largo (k.cola e) h in rw (bucle_vacio zero k nada) (Vuelta.vacia k nada)
  bucle-Vuelta a (suc n) k h = elim (con_cabeza (k.cola e)) [
    | inl nada ↦ rw (bucle_vacio (suc n) k nada) (Vuelta.vacia k nada)
    | inr (x, xs, hay) ↦ rw (bucle_paso n k x xs hay) (
        un_paso n k x xs hay (λ k1 da. let l = a k k1 da in bucle-Vuelta a n k1 (omega arith))
          (ronda k) refl)
  ]

-- Each of the two loops of the long-term scheduler, with a round for each process in its queue, ends
-- as the loop without a bound does: with an empty queue, or with the first round that the memory
-- refuses, or with one that panics or waits.
pub bucle_new-Vuelta :
    (sort : Sort) (reanuda entra : ℕ → Bool) (ahora : ℕ) (k : Kernel)
    → Vuelta new
        (ronda_new sort entra ahora)
        k
        (bucle sort new (ronda_new sort entra ahora) (length (k.cola new)) k)
      × Vuelta susp_ready (ronda_susp_ready sort reanuda ahora) k (
          bucle sort susp_ready
            (ronda_susp_ready sort reanuda ahora)
            (length (k.cola susp_ready))
            k)
bucle_new-Vuelta sort reanuda entra ahora k = (
  bucle-Vuelta sort new (ronda_new sort entra ahora) (ronda_new-Acorta sort entra ahora)
      (length (k.cola new)) k (omega arith),
  bucle-Vuelta sort susp_ready (ronda_susp_ready sort reanuda ahora)
      (ronda_susp_ready-Acorta sort reanuda ahora) (length (k.cola susp_ready)) k (omega arith),
)
