-- ===== src/Kernel/Invariante/Bloqueo.antt =====
-- The moves of a blocked process, and the medium-term scheduler, keep the invariant.
use conurban_os.Prelude.{
  ℕ, ◌≡◌, ap, ◌∙◌, inl, inr, Bool, ◌&&◌, Option, some, bind_some, ◌>>=◌, arith, some_inj,
  Bool-cases, Option-cases, ◌==◌,
}
use conurban_os.Kernel.Comunicacion.{enviar}
use conurban_os.Kernel.Estado.{
  ready, execute, blocked, susp_blocked, susp_ready, codigo, Kernel, Mensaje,
  signal_pasar_proceso_a_ready,
}
use conurban_os.Kernel.Colas.{
  lock_proceso, cambiar_estado, actualizar_rafagas, execute_a_blocked, blocked_a_susp_blocked,
  blocked_a_ready, susp_blocked_a_susp_ready,
}
use conurban_os.Kernel.Medio.{bloquear_proceso, sigue_bloqueado, sesiones}
use conurban_os.Kernel.Invariante.{
  Bien, vista_trans, vista-Bien, lock_proceso-vista, unlock_proceso-vista,
}
use conurban_os.Kernel.Invariante.Mudanzas.{
  Retocado-trans, cambiar_estado-efecto, actualizar_rafagas-efecto,
}
use conurban_os.Kernel.Invariante.Cambios.{mover-Bien}
use conurban_os.Kernel.Invariante.Comienzo.{signal-vista}
use conurban_os.Kernel.Invariante.Rondas.{enviar-vista}

pub execute_a_blocked-Bien :
    (pid ahora : ℕ) {k k' : Kernel} {b : Bool}
    → execute_a_blocked pid ahora k ≡ some (k', b)
    → Bien k
    → Bien k'
unfolding execute_a_blocked
execute_a_blocked-Bien pid ahora h b =
    mover-Bien execute blocked
      (λ k. actualizar_rafagas pid ahora k >>= cambiar_estado pid execute blocked ahora) pid
      (λ x. absurd (omega (arith, x)))
      (λ k1 k2 g.
        let (k3, rafaga, cambia) = bind_some (actualizar_rafagas pid ahora k1) _ g in
        let c = cambiar_estado-efecto pid execute blocked ahora cambia in
        elim (actualizar_rafagas-efecto pid ahora rafaga) [
          | inl igual ↦ rw igual c
          | inr r ↦
              let (t, es) = Retocado-trans r c.retocado in
              record { retocado = t; suyo = ap (λ p. p.estado_actual) es ∙ c.suyo }
        ])
      h b

-- The moves whose end is the change of state only.
pub blocked_a_susp_blocked-Bien :
    (pid ahora : ℕ) {k k' : Kernel} {b : Bool}
    → blocked_a_susp_blocked pid ahora k ≡ some (k', b)
    → Bien k
    → Bien k'
unfolding blocked_a_susp_blocked
blocked_a_susp_blocked-Bien pid ahora h b =
    mover-Bien blocked susp_blocked (cambiar_estado pid blocked susp_blocked ahora) pid
      (λ x. absurd (omega (arith, x)))
      (λ k1 k2. cambiar_estado-efecto pid blocked susp_blocked ahora) h b

pub blocked_a_ready-Bien :
    (pid ahora : ℕ) {k k' : Kernel} {b : Bool}
    → blocked_a_ready pid ahora k ≡ some (k', b)
    → Bien k
    → Bien k'
unfolding blocked_a_ready
blocked_a_ready-Bien pid ahora h b =
    mover-Bien blocked ready (cambiar_estado pid blocked ready ahora) pid
      (λ x. absurd (omega (arith, x))) (λ k1 k2. cambiar_estado-efecto pid blocked ready ahora) h b

pub susp_blocked_a_susp_ready-Bien :
    (pid ahora : ℕ) {k k' : Kernel} {b : Bool}
    → susp_blocked_a_susp_ready pid ahora k ≡ some (k', b)
    → Bien k
    → Bien k'
unfolding susp_blocked_a_susp_ready
susp_blocked_a_susp_ready-Bien pid ahora h b =
    mover-Bien susp_blocked susp_ready (cambiar_estado pid susp_blocked susp_ready ahora) pid
      (λ x. absurd (omega (arith, x)))
      (λ k1 k2. cambiar_estado-efecto pid susp_blocked susp_ready ahora) h b

pub bloquear_proceso-Bien :
    (pid ahora : ℕ) {k k' : Kernel} {s : Option ℕ}
    → bloquear_proceso pid ahora k ≡ some (k', s)
    → Bien k
    → Bien k'
unfolding bloquear_proceso
bloquear_proceso-Bien pid ahora {k} h b =
    let ((k1, ok), pasa, fin) = bind_some (execute_a_blocked pid ahora k) _ h in
    rw (← ap (λ q. q.0) (some_inj fin)) (execute_a_blocked-Bien pid ahora pasa b)

pub sigue_bloqueado-Bien :
    (pid n ahora : ℕ) {k k' : Kernel} → sigue_bloqueado pid n ahora k ≡ some k' → Bien k → Bien k'
unfolding sigue_bloqueado
sigue_bloqueado-Bien pid n ahora {k} h b =
    let (k1, toma, h1) = bind_some (lock_proceso pid k) _ h in
    let b1 = vista-Bien (lock_proceso-vista pid k toma) b in
    elim (Option-cases (k1.mapa_procesos pid)) [
      | inl nada ↦ vista-Bien (unlock_proceso-vista pid k1 (rw nada at h1)) b1
      | inr (p, hay) ↦
          let h2 = rw hay at h1 in
          elim (Bool-cases
            ((sesiones p.pid k1 == n) && (codigo p.estado_actual == codigo blocked))) [
              | inr no_ ↦ vista-Bien (unlock_proceso-vista pid k1 (rw no_ at h2)) b1
              | inl si ↦
                  let k0 = enviar (Mensaje.suspender p.pid) k1 in
                  let ((k2, _), pasa, h3) =
                    bind_some (blocked_a_susp_blocked pid ahora k0) _ (rw si at h2) in
                  let (k3, avisa, suelta) = bind_some (signal_pasar_proceso_a_ready k2) _ h3 in
                  vista-Bien
                    (vista_trans (signal-vista k2 avisa) (unlock_proceso-vista pid k3 suelta))
                    (blocked_a_susp_blocked-Bien pid ahora pasa
                      (vista-Bien (enviar-vista (Mensaje.suspender p.pid) k1) b1))
            ]
    ]
