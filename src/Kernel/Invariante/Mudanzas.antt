-- ===== src/Kernel/Invariante/Mudanzas.antt =====
-- A process that passes from one queue to another and changes its state.
use conurban_os.Prelude.{
  ℕ, ◌-◌, ◌<◌, ◌≡◌, ◌≢◌, refl, sym, ap, ◌∙◌, ◌⊎◌, inl, inr, [], ◌∷◌, ◌++◌, true, some, arith,
  bind_some, poner, poner_self, poner_ne, ℕ_discrete, some_inj, Bool-cases, ltb→lt,
}
use conurban_os.Kernel.Estado.{Estado, codigo, ProcesoKernel, Kernel, es_fifo}
use conurban_os.Kernel.Orden.{veces}
use conurban_os.Kernel.Colas.{cambiar_estado, con_metricas, actualizar_rafagas}
use conurban_os.Kernel.Colas.Referencia.{quitar, esta, veces-quitar, veces-append}
use conurban_os.Kernel.Invariante.{Bien, MismaVista, codigo-inj}
use conurban_os.Kernel.Invariante.Ubicado.{Ubicado}
use conurban_os.Kernel.Invariante.Efectos.{ConCola}

-- The map has another value for a known process, which keeps its pid.
pub record Retocado (pid : ℕ) (k k' : Kernel) : Type 0 where
  pub cola : (e : Estado) → k'.cola e ≡ k.cola e
  pub contador : k'.pid_counter ≡ k.pid_counter
  pub antes : ProcesoKernel
  pub estaba : k.mapa_procesos pid ≡ some antes
  pub despues : ProcesoKernel
  pub el_suyo : k'.mapa_procesos pid ≡ some despues
  pub los_demas : (a : ℕ) → pid ≢ a → k'.mapa_procesos a ≡ k.mapa_procesos a
  pub misma_clave : despues.pid ≡ antes.pid

pub record Cambiado (e : Estado) (pid : ℕ) (k k' : Kernel) : Type 0 where
  pub retocado : Retocado pid k k'
  pub suyo : retocado.despues.estado_actual ≡ e

pub Retocado-trans :
    {pid : ℕ} {k k1 k' : Kernel} (r : Retocado pid k k1) (s : Retocado pid k1 k')
    → (t : Retocado pid k k') × (t.despues ≡ s.despues)
Retocado-trans r s = (
  record {
    cola = λ e. s.cola e ∙ r.cola e;
    contador = s.contador ∙ r.contador;
    antes = r.antes;
    estaba = r.estaba;
    despues = s.despues;
    el_suyo = s.el_suyo;
    los_demas = λ a d. s.los_demas a d ∙ r.los_demas a d;
    misma_clave =
        s.misma_clave ∙ ap (λ p. p.pid) (some_inj (sym s.estaba ∙ r.el_suyo)) ∙ r.misma_clave;
  },
  refl,
)

pub Cambiado-vistas :
    {e : Estado} {pid : ℕ} {k k1 k2 k' : Kernel}
    → MismaVista k k1
    → Cambiado e pid k1 k2
    → MismaVista k2 k'
    → Cambiado e pid k k'
Cambiado-vistas {pid = pid} v c w =
    let r = c.retocado in
    record {
      suyo = c.suyo;
      retocado = record {
        cola = λ e. w.cola e ∙ r.cola e ∙ v.cola e;
        contador = w.contador ∙ r.contador ∙ v.contador;
        antes = r.antes;
        estaba = sym (v.mapa pid) ∙ r.estaba;
        despues = r.despues;
        el_suyo = w.mapa pid ∙ r.el_suyo;
        los_demas = λ a d. w.mapa a ∙ r.los_demas a d ∙ v.mapa a;
        misma_clave = r.misma_clave;
      };
    }

-- `mapa[pid] = q` for a known process.
pub retoque :
    (pid : ℕ) (p q : ProcesoKernel) (k : Kernel) {k' : Kernel}
    → k.mapa_procesos pid ≡ some p
    → q.pid ≡ p.pid
    → record k { mapa_procesos = poner k.mapa_procesos pid q } ≡ k'
    → (r : Retocado pid k k') × (r.despues ≡ q) × (r.antes ≡ p)
retoque pid p q k esta clave fin = rw (← fin) (
  record {
    cola = λ e. refl;
    contador = refl;
    antes = p;
    estaba = esta;
    despues = q;
    el_suyo = poner_self k.mapa_procesos pid q;
    los_demas = poner_ne k.mapa_procesos pid q;
    misma_clave = clave;
  },
  refl,
  refl,
)

-- A change that leaves the state keeps the invariant.
pub Retocado-Bien :
    {pid : ℕ} {k k' : Kernel} (r : Retocado pid k k')
    → r.despues.estado_actual ≡ r.antes.estado_actual
    → Bien k
    → Bien k'
Retocado-Bien {pid} {k} {k'} r igual b =
    let claves : (a : ℕ) (p : ProcesoKernel)
        → k'.mapa_procesos a ≡ some p
        → (p.pid ≡ a) × (a < k.pid_counter) =
      λ a p h. elim (ℕ_discrete pid a) [
        | yes es ↦
            let mismo : r.despues ≡ p = some_inj (sym r.el_suyo ∙ rw (← es) at h) in
            (
              ap (λ q. q.pid) (sym mismo) ∙ r.misma_clave ∙ b.clave pid r.antes r.estaba ∙ es,
              rw (← es) (b.dados pid r.antes r.estaba),
            )
        | no d ↦ let h' = sym (r.los_demas a d) ∙ h in (b.clave a p h', b.dados a p h')
      ] in
    record {
      una = λ e a. rw (r.cola e) (b.una e a);
      sola = λ e e' a h h'. b.sola e e' a (rw (r.cola e) at h) (rw (r.cola e') at h');
      vistos = λ e a h. rw r.contador (b.vistos e a (rw (r.cola e) at h));
      estado = λ e a p h en.
          let h' = rw (r.cola e) at h in
          elim (ℕ_discrete pid a) [
            | yes suyo ↦
                let mismo : r.despues ≡ p = some_inj (sym r.el_suyo ∙ rw (← suyo) at en) in
                ap (λ q. q.estado_actual) (sym mismo)
                ∙ igual
                ∙ b.estado e pid r.antes (rw (← suyo) at h') r.estaba
            | no d ↦ b.estado e a p h' (sym (r.los_demas a d) ∙ en)
          ];
      clave = λ a p h. (claves a p h).0;
      dados = λ a p h. rw r.contador (claves a p h).1;
    }

pub cambiar_estado-efecto :
    (pid : ℕ) (viejo nuevo : Estado) (ahora : ℕ) {k k' : Kernel}
    → cambiar_estado pid viejo nuevo ahora k ≡ some k'
    → Cambiado nuevo pid k k'
unfolding cambiar_estado
cambiar_estado-efecto pid viejo nuevo ahora {k} h =
    let (p, esta, fin) = bind_some (k.mapa_procesos pid) _ h in
    let (r, es, _) =
      retoque pid p (con_metricas viejo ahora (record p { estado_actual = nuevo })) k esta refl
        (some_inj fin) in
    record { retocado = r; suyo = ap (λ q. q.estado_actual) es }

pub actualizar_rafagas-efecto :
    (pid ahora : ℕ) {k k' : Kernel}
    → actualizar_rafagas pid ahora k ≡ some k'
    → (k ≡ k') ⊎ Retocado pid k k'
unfolding actualizar_rafagas
actualizar_rafagas-efecto pid ahora {k} h = elim (Bool-cases (es_fifo k.algoritmo)) [
  | inl si ↦ inl (some_inj (rw si at h))
  | inr no_ ↦
      let (p, esta, fin) = bind_some (k.mapa_procesos pid) _ (rw no_ at h) in
      inr
        (retoque pid p (record p { rafagas = (ahora - p.ultimo_cambio_de_estado) ∷ p.rafagas }) k
          esta refl (some_inj fin)).0
]

-- A process that was taken off one queue, put in another where it was not, and changed to the state
-- of that one.
module _ (viejo : Estado) (pid : ℕ) {k : Kernel} (b : Bien k)
    (estaba : esta pid (k.cola viejo) ≡ true) where
  habia : 0 < veces pid (k.cola viejo)
  habia = ltb→lt 0 (veces pid (k.cola viejo)) estaba

  -- It was in no other queue.
  solo : (e : Estado) → codigo viejo ≢ codigo e → veces pid (k.cola e) ≡ 0
  solo e d = elim (ℕ_discrete (veces pid (k.cola e)) 0) [
    | yes cero ↦ cero
    | no mas ↦ absurd (d (ap codigo (b.sola viejo e pid habia (omega arith))))
  ]

  module _ {k1 : Kernel} (sacado : ConCola viejo (quitar pid (k.cola viejo)) k k1) where
    pub no_en_nuevo : (nuevo : Estado) → codigo viejo ≢ codigo nuevo → veces pid (k1.cola nuevo) ≡ 0
    no_en_nuevo nuevo d = rw (sacado.otras nuevo d) (solo nuevo d)

    sin_el : (e : Estado) → veces pid (k1.cola e) ≡ 0
    sin_el e = elim (ℕ_discrete (codigo viejo) (codigo e)) [
      | yes mismo ↦
          let v = (veces-quitar pid (k.cola viejo) habia).0 in
          let u = b.una viejo pid in rw (← codigo-inj viejo e mismo, sacado.ella) (omega arith)
      | no d ↦ rw (sacado.otras e d) (solo e d)
    ]

    otros_quedan : (e : Estado) (a : ℕ) → pid ≢ a → veces a (k1.cola e) ≡ veces a (k.cola e)
    otros_quedan e a d = elim (ℕ_discrete (codigo viejo) (codigo e)) [
      | yes mismo ↦
          rw (← codigo-inj viejo e mismo, sacado.ella)
            ((veces-quitar pid (k.cola viejo) habia).1 a d)
      | no d' ↦ ap (veces a) (sacado.otras e d')
    ]

    module _ {nuevo : Estado} {k2 k' : Kernel} (distintos : codigo viejo ≢ codigo nuevo)
        (agregado : ConCola nuevo (k1.cola nuevo ++ pid ∷ []) k1 k2)
        (c : Cambiado nuevo pid k2 k') where
      otros_siguen : (e : Estado) (a : ℕ) → pid ≢ a → veces a (k'.cola e) ≡ veces a (k.cola e)
      otros_siguen e a d =
          ap (veces a) (c.retocado.cola e) ∙ elim (ℕ_discrete (codigo nuevo) (codigo e)) [
            | yes mismo ↦
                let v = veces-append a (k1.cola nuevo) (pid ∷ []) in
                let o = otros_quedan nuevo a d in
                rw (← codigo-inj nuevo e mismo, agregado.ella) (ground arith)
            | no d' ↦ ap (veces a) (agregado.otras e d') ∙ otros_quedan e a d
          ]

      pub mudado-Ubicado : Ubicado nuevo pid k k'
      mudado-Ubicado =
          let r = c.retocado in
          let en : k.mapa_procesos pid ≡ some r.antes =
            sym (agregado.mapa pid ∙ sacado.mapa pid) ∙ r.estaba in
          let cont : k'.pid_counter ≡ k.pid_counter =
            r.contador ∙ agregado.contador ∙ sacado.contador in
          let dado = b.dados pid r.antes en in
          record {
            otros = otros_siguen;
            aqui =
                let v = veces-append pid (k1.cola nuevo) (pid ∷ []) in
                let z = no_en_nuevo nuevo distintos in
                rw (r.cola nuevo, agregado.ella) (ground arith);
            fuera = λ e d. rw (r.cola e, agregado.otras e d) (sin_el e);
            proceso = r.despues;
            el_suyo = r.el_suyo;
            los_demas = λ a d. r.los_demas a d ∙ agregado.mapa a ∙ sacado.mapa a;
            suyo = c.suyo;
            clave = r.misma_clave ∙ b.clave pid r.antes en;
            dado = rw cont dado;
            contador = omega arith;
          }
