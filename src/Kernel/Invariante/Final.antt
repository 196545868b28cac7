-- ===== src/Kernel/Invariante/Final.antt =====
-- The end of a process.
use conurban_os.Prelude.{
  ℕ, ◌≡◌, ◌<◌, ◌≤◌, ◌≢◌, refl, sym, ap, ◌∙◌, inl, inr, List, some, none, bind_some, arith, some_inj,
  Option-cases, borrar, ==_self, poner_ne, ℕ_discrete,
}
use conurban_os.Kernel.Comunicacion.{enviar}
use conurban_os.Kernel.Estado.{Estado, codigo, ProcesoKernel, Kernel, Mensaje}
use conurban_os.Kernel.Orden.{veces}
use conurban_os.Kernel.Colas.{eliminar_proceso_de, sacar_de, con_metricas}
use conurban_os.Kernel.Colas.Referencia.{quitar, quitar_nada, veces-quitar}
use conurban_os.Kernel.Largo.{
  con_mutex, actualizar_metricas, eliminar_de_mapa_procesos, log_exit, finalizar_proceso,
}
use conurban_os.Kernel.Invariante.{Bien, MismaVista, vista_refl, codigo-inj}
use conurban_os.Kernel.Invariante.Efectos.{ConCola, sacar_de-efecto}
use conurban_os.Kernel.Invariante.Comienzo.{con_mutex-vistas, signal-vista}

-- No queue has a process more often than before, and the one that ended is not in the map.
pub record Terminado (pid : ℕ) (k k' : Kernel) : Type 0 where
  pub menos : (e : Estado) (a : ℕ) → veces a (k'.cola e) ≤ veces a (k.cola e)
  pub borrado : k'.mapa_procesos pid ≡ none
  pub los_demas : (a : ℕ) → pid ≢ a → k'.mapa_procesos a ≡ k.mapa_procesos a
  pub contador : k'.pid_counter ≡ k.pid_counter

-- What the map still has was there before.
queda :
    {pid : ℕ} {k k' : Kernel}
    → Terminado pid k k'
    → (a : ℕ) (p : ProcesoKernel) → k'.mapa_procesos a ≡ some p
    → k.mapa_procesos a ≡ some p
queda {pid} t a p h = elim (ℕ_discrete pid a) [
  | yes es ↦ let m = t.borrado in let h' = rw (← es) at h in absurd (ground arith)
  | no d ↦ sym (t.los_demas a d) ∙ h
]

pub Terminado-Bien : {pid : ℕ} {k k' : Kernel} → Terminado pid k k' → Bien k → Bien k'
Terminado-Bien {pid} {k} {k'} t b =
    let antes : (e : Estado) (a : ℕ) → 0 < veces a (k'.cola e) → 0 < veces a (k.cola e) =
      λ e a h. let m = t.menos e a in omega arith in
    record {
      una = λ e a. let m = t.menos e a in let u = b.una e a in omega arith;
      sola = λ e e' a h h'. b.sola e e' a (antes e a h) (antes e' a h');
      vistos = λ e a h. rw t.contador (b.vistos e a (antes e a h));
      estado = λ e a p h en. b.estado e a p (antes e a h) (queda t a p en);
      clave = λ a p h. b.clave a p (queda t a p h);
      dados = λ a p h. rw t.contador (b.dados a p (queda t a p h));
    }

-- The pieces that may retouch the process, or take it off the map.
record Retoque (pid : ℕ) (k k' : Kernel) : Type 0 where
  pub cola : (e : Estado) → k'.cola e ≡ k.cola e
  pub los_demas : (a : ℕ) → pid ≢ a → k'.mapa_procesos a ≡ k.mapa_procesos a
  pub contador : k'.pid_counter ≡ k.pid_counter

vista-Retoque : {pid : ℕ} {k k' : Kernel} → MismaVista k k' → Retoque pid k k'
vista-Retoque v = record { cola = v.cola; los_demas = λ a d. v.mapa a; contador = v.contador }

Retoque-trans :
    {pid : ℕ} {k k1 k' : Kernel} → Retoque pid k k1 → Retoque pid k1 k' → Retoque pid k k'
Retoque-trans r s = record {
  cola = λ e. s.cola e ∙ r.cola e;
  los_demas = λ a d. s.los_demas a d ∙ r.los_demas a d;
  contador = s.contador ∙ r.contador;
}

con_mutex-Retoque :
    (pid : ℕ) (f : Kernel → Kernel) (k : Kernel) {k' : Kernel}
    → ((k1 : Kernel) → Retoque pid k1 (f k1))
    → con_mutex pid f k ≡ some k'
    → Retoque pid k k'
con_mutex-Retoque pid f k r h =
    let (k1, v, w) = con_mutex-vistas pid f k h in
    Retoque-trans (vista-Retoque v) (Retoque-trans (r k1) (vista-Retoque w))

metricas-Retoque :
    (pid : ℕ) (e : Estado) (ahora : ℕ) (k : Kernel)
    → Retoque pid k (actualizar_metricas pid e ahora k)
unfolding actualizar_metricas
metricas-Retoque pid e ahora k = elim (Option-cases (k.mapa_procesos pid)) [
  | inl nada ↦ rw (actualizar_metricas, nada) (vista-Retoque (vista_refl k))
  | inr (p, hay) ↦
      rw (actualizar_metricas, hay)
        (record {
          cola = λ e'. refl;
          los_demas = poner_ne k.mapa_procesos pid (con_metricas e ahora p);
          contador = refl;
        })
]

log_exit-Retoque :
    (pid : ℕ) (k : Kernel) {k' : Kernel} → log_exit pid k ≡ some k' → Retoque pid k k'
unfolding log_exit
log_exit-Retoque pid k h =
    let (k1, toma, h1) = bind_some (con_mutex pid (λ k2. k2) k) _ h in
    let r = con_mutex-Retoque pid (λ k2. k2) k (λ k2. vista-Retoque (vista_refl k2)) toma in
    elim (Option-cases (k1.mapa_procesos pid)) [
      | inl nada ↦ let x = rw nada at h1 in absurd (ground arith)
      | inr (p, hay) ↦ rw (← some_inj (rw hay at h1)) r
    ]

borrar-Retoque :
    (pid : ℕ) (k : Kernel) {k' : Kernel}
    → eliminar_de_mapa_procesos pid k ≡ some k'
    → Retoque pid k k' × (k'.mapa_procesos pid ≡ none)
unfolding eliminar_de_mapa_procesos borrar
borrar-Retoque pid k h =
    let f : Kernel → Kernel = λ k1. record k1 { mapa_procesos = borrar k1.mapa_procesos pid } in
    let (k1, v, w) = con_mutex-vistas pid f k h in
    (
      con_mutex-Retoque pid f k
          (λ k2. record { cola = λ e. refl; los_demas = λ a d. ground arith; contador = refl }) h,
      w.mapa pid ∙ rw (==_self pid) refl,
    )

veces-quitar_le : (pid : ℕ) (cola : List ℕ) (a : ℕ) → veces a (quitar pid cola) ≤ veces a cola
veces-quitar_le pid cola a = elim (ℕ_discrete (veces pid cola) 0) [
  | yes cero ↦ let q = ap (veces a) (quitar_nada pid cola cero) in omega arith
  | no mas ↦ elim (ℕ_discrete pid a) [
    | yes es ↦ let v = (veces-quitar pid cola (omega arith)).0 in rw (← es) (omega arith)
    | no d ↦ let v = (veces-quitar pid cola (omega arith)).1 a d in omega arith
  ]
]

quita_menos :
    (e : Estado) (pid : ℕ) {k k1 : Kernel}
    → ConCola e (quitar pid (k.cola e)) k k1
    → (e' : Estado) (a : ℕ) → veces a (k1.cola e') ≤ veces a (k.cola e')
quita_menos e pid {k} c e' a = elim (ℕ_discrete (codigo e) (codigo e')) [
  | no d ↦ let q = ap (veces a) (c.otras e' d) in omega arith
  | yes mismo ↦ rw (← codigo-inj e e' mismo, c.ella) (veces-quitar_le pid (k.cola e) a)
]

-- The end of a process: it is not in the map, and the only queue that may change is that of the given
-- state, which the process leaves.
pub finalizar_proceso-Terminado :
    (pid : ℕ) (anterior : Estado) (ahora : ℕ) (k : Kernel) {k' : Kernel}
    → finalizar_proceso pid anterior ahora k ≡ some k'
    → Terminado pid k k' × ((e : Estado) → codigo anterior ≢ codigo e → k'.cola e ≡ k.cola e)
unfolding finalizar_proceso eliminar_proceso_de
finalizar_proceso-Terminado pid anterior ahora k {k'} h =
    let k0 = enviar (Mensaje.finalizar pid) k in
    let ((k1, _), saca, h1) = bind_some (sacar_de anterior pid k0) _ h in
    let (k2, mide, h2) =
      bind_some (con_mutex pid (actualizar_metricas pid anterior ahora) k1) _ h1 in
    let (k3, registra, h3) = bind_some (log_exit pid k2) _ h2 in
    let (k4, borra, avisa) = bind_some (eliminar_de_mapa_procesos pid k3) _ h3 in
    let (c0, _) = sacar_de-efecto anterior pid saca in
    let c : ConCola anterior (quitar pid (k.cola anterior)) k k1 = record {
      ella = c0.ella;
      otras = c0.otras;
      mapa = c0.mapa;
      contador = c0.contador;
    } in
    let (q, nada) = borrar-Retoque pid k3 borra in
    let w = signal-vista k4 avisa in
    let r =
      Retoque-trans (con_mutex-Retoque pid _ k1 (metricas-Retoque pid anterior ahora) mide)
        (Retoque-trans (log_exit-Retoque pid k2 registra) (Retoque-trans q (vista-Retoque w))) in
    (
      record {
        menos = λ e a. rw (r.cola e) (quita_menos anterior pid c e a);
        borrado = w.mapa pid ∙ nada;
        los_demas = λ a d. r.los_demas a d ∙ c.mapa a;
        contador = r.contador ∙ c.contador;
      },
      λ e d. r.cola e ∙ c.otras e d,
    )
