-- ===== src/Kernel/Invariante/Cambios.antt =====
-- The changes of state of estadosController.go keep the invariant, on every way out.
use conurban_os.Prelude.{
  ℕ, ◌≡◌, ◌≢◌, refl, sym, ap, ◌∙◌, inl, inr, [], ◌∷◌, ◌++◌, Bool, true, Option, some, bind_some,
  ◌>>=◌, arith, some_inj, Bool-cases,
}
use conurban_os.Kernel.Estado.{Estado, ready, execute, codigo, Kernel}
use conurban_os.Kernel.Colas.{
  con_cola, cambiar_estado, sacar_de, agregar_en, lock_cola, unlock_cola, lock_proceso,
  unlock_proceso, pasar_con_mutex, ready_a_execute, sin_mutex_a_ready, mover, execute_a_ready,
}
use conurban_os.Kernel.Colas.Referencia.{quitar, esta, quitar_nada, colas-referencia}
use conurban_os.Kernel.Invariante.{
  Bien, vista_refl, vista_trans, vista-Bien, lock_cola-vista, unlock_cola-vista, lock_proceso-vista,
  unlock_proceso-vista,
}
use conurban_os.Kernel.Invariante.Ubicado.{Ubicado, Ubicado-Bien}
use conurban_os.Kernel.Invariante.Efectos.{
  ConCola, ConCola-vista, con_cola-vistas, sacar_de-efecto, agregar_en-efecto,
}
use conurban_os.Kernel.Invariante.Mudanzas.{
  Cambiado, Cambiado-vistas, cambiar_estado-efecto, no_en_nuevo, mudado-Ubicado,
}

-- A process that was taken off one queue goes into the other, where it cannot be.
tras_sacar :
    (viejo nuevo : Estado) (pid : ℕ) {k k1 k2 : Kernel} {b : Bool}
    → codigo viejo ≢ codigo nuevo
    → Bien k
    → esta pid (k.cola viejo) ≡ true
    → ConCola viejo (quitar pid (k.cola viejo)) k k1
    → agregar_en nuevo pid k1 ≡ some (k2, b)
    → ConCola nuevo (k1.cola nuevo ++ pid ∷ []) k1 k2 × (b ≡ true)
tras_sacar viejo nuevo pid d b estaba sacado h = elim (agregar_en-efecto nuevo pid h) [
  | inl (c, es, _) ↦ (c, es)
  | inr (_, si) ↦ let z = no_en_nuevo viejo pid b estaba sacado nuevo d in absurd (ground arith)
]

pub pasar_con_mutex-Ubicado :
    (viejo nuevo : Estado) (pid ahora : ℕ) {k k1 k' : Kernel} {b : Bool}
    → codigo viejo ≢ codigo nuevo
    → Bien k
    → esta pid (k.cola viejo) ≡ true
    → ConCola viejo (quitar pid (k.cola viejo)) k k1
    → pasar_con_mutex viejo nuevo pid ahora k1 ≡ some (k', b)
    → Ubicado nuevo pid k k' × (b ≡ true)
unfolding pasar_con_mutex
pasar_con_mutex-Ubicado viejo nuevo pid ahora {k} {k1} {k'} d b estaba sacado h =
    let ((k2, agregado), pone, h1) = bind_some (agregar_en nuevo pid k1) _ h in
    let (c, es) = tras_sacar viejo nuevo pid d b estaba sacado pone in
    let (k3, cambia, h2) = bind_some (cambiar_estado pid viejo nuevo ahora k2) _ (rw es at h1) in
    let (k4, suelta, h3) = bind_some (unlock_proceso pid k3) _ h2 in
    let fin = some_inj h3 in
    let v = rw (ap (λ q. q.0) fin) at (unlock_proceso-vista pid k3 suelta) in
    (
      mudado-Ubicado viejo pid b estaba sacado d c
          (Cambiado-vistas (vista_refl k2) (cambiar_estado-efecto pid viejo nuevo ahora cambia) v),
      sym (ap (λ q. q.1) fin),
    )

pub mover-Bien :
    (viejo nuevo : Estado) (fin : Kernel → Option Kernel) (pid : ℕ) {k k' : Kernel} {b : Bool}
    → codigo viejo ≢ codigo nuevo
    → ((k1 k2 : Kernel) → fin k1 ≡ some k2 → Cambiado nuevo pid k1 k2)
    → mover viejo nuevo fin pid k ≡ some (k', b)
    → Bien k
    → Bien k'
unfolding mover
mover-Bien viejo nuevo fin pid {k} {k'} d cambia h b =
    let ((k1, sacado), saca, h1) = bind_some (sacar_de viejo pid k) _ h in
    let (c, es) = sacar_de-efecto viejo pid saca in
    elim (Bool-cases (esta pid (k.cola viejo))) [
      | inl si ↦
          let ((k2, agregado), pone, h2) =
            bind_some (agregar_en nuevo pid k1) _ (rw (es ∙ si) at h1) in
          let (c', es') = tras_sacar viejo nuevo pid d b si c pone in
          let (k3, cambio, h3) = bind_some (fin k2) _ (rw es' at h2) in
          let fin' = ap (λ q. q.0) (some_inj h3) in
          rw (← fin') (Ubicado-Bien (mudado-Ubicado viejo pid b si c d c' (cambia k2 k3 cambio)) b)
      | inr no_ ↦
          let fin' = ap (λ q. q.0) (some_inj (rw (es ∙ no_) at h1)) in
          let igual = quitar_nada pid (k.cola viejo) (ground arith) in
          rw (← fin') (vista-Bien (ConCola-vista viejo (rw igual at c)) b)
    ]

pub ready_a_execute-Bien :
    (pid ahora : ℕ) {k k' : Kernel} {b : Bool}
    → ready_a_execute pid ahora k ≡ some (k', b)
    → Bien k
    → Bien k'
unfolding ready_a_execute
ready_a_execute-Bien pid ahora {k} {k'} h b =
    let (k1, toma, h1) = bind_some (lock_proceso pid k) _ h in
    let (k2, toma', h2) = bind_some (lock_cola ready k1) _ h1 in
    let v = vista_trans (lock_proceso-vista pid k toma) (lock_cola-vista ready k1 toma') in
    let b2 = vista-Bien v b in
    let ref = (colas-referencia (k2.cola ready) pid).0 in
    elim (Bool-cases (esta pid (k2.cola ready))) [
      | inl si ↦
          let h3 = rw (ref, si) at h2 in
          let (k3, suelta, h4) =
            bind_some (unlock_cola ready (con_cola ready (quitar pid (k2.cola ready)) k2)) _ h3 in
          let c = con_cola-vistas ready refl (vista_refl k2) (unlock_cola-vista ready _ suelta) in
          let (u, _) =
            pasar_con_mutex-Ubicado ready execute pid ahora (λ x. absurd (omega (arith, x))) b2 si c
              h4 in
          Ubicado-Bien u b2
      | inr no_ ↦ rw (← ap (λ q. q.0) (some_inj (rw (ref, no_) at h2))) b2
    ]

pub sin_mutex_a_ready-Bien :
    (viejo : Estado) (pid ahora : ℕ) {k k' : Kernel} {b : Bool}
    → codigo viejo ≢ codigo ready
    → sin_mutex_a_ready viejo pid ahora k ≡ some (k', b)
    → Bien k
    → Bien k'
unfolding sin_mutex_a_ready
sin_mutex_a_ready-Bien viejo pid ahora {k} {k'} d h b =
    let (k1, toma, h1) = bind_some (lock_proceso pid k) _ h in
    let b1 = vista-Bien (lock_proceso-vista pid k toma) b in
    let ref = (colas-referencia (k1.cola viejo) pid).0 in
    elim (Bool-cases (esta pid (k1.cola viejo))) [
      | inl si ↦
          let c =
            con_cola-vistas viejo refl (vista_refl k1)
              (vista_refl (con_cola viejo (quitar pid (k1.cola viejo)) k1)) in
          let (u, _) =
            pasar_con_mutex-Ubicado viejo ready pid ahora d b1 si c (rw (ref, si) at h1) in
          Ubicado-Bien u b1
      | inr no_ ↦ rw (← ap (λ q. q.0) (some_inj (rw (ref, no_) at h1))) b1
    ]

pub execute_a_ready-Bien :
    (pid ahora : ℕ) {k k' : Kernel} {b : Bool}
    → execute_a_ready pid ahora k ≡ some (k', b)
    → Bien k
    → Bien k'
unfolding execute_a_ready
execute_a_ready-Bien pid ahora h b =
    mover-Bien execute ready
      (λ k. lock_proceso pid k >>= cambiar_estado pid execute ready ahora >>= unlock_proceso pid)
      pid (λ x. absurd (omega (arith, x)))
      (λ k1 k2 g.
        let (k4, g', suelta) =
          bind_some (lock_proceso pid k1 >>= cambiar_estado pid execute ready ahora)
            (unlock_proceso pid) g in
        let (k3, toma, cambia) = bind_some (lock_proceso pid k1) _ g' in
        Cambiado-vistas (lock_proceso-vista pid k1 toma)
          (cambiar_estado-efecto pid execute ready ahora cambia)
          (unlock_proceso-vista pid k4 suelta))
      h b
