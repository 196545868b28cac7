-- ===== src/Kernel/Invariante/Efectos.antt =====
-- What the pieces of a change of state do to the queues and to the map.
use conurban_os.Prelude.{
  ℕ, ◌≡◌, ◌≢◌, refl, sym, ap, ◌∙◌, ◌⊎◌, inl, inr, List, [], ◌∷◌, ◌++◌, Bool, true, false, Option,
  some, ◌>>=◌, bind_some, ℕ_discrete, some_inj, Bool-cases,
}
use conurban_os.Kernel.Estado.{Estado, codigo, Kernel}
use conurban_os.Kernel.Colas.{
  lock_cola, unlock_cola, con_cola, sacar_de, agregar_en, eliminar_proceso_de_cola,
  agregar_proceso_a_cola,
}
use conurban_os.Kernel.Colas.Mudanza.{en_estado_self, en_estado_ne}
use conurban_os.Kernel.Colas.Referencia.{quitar, esta, colas-referencia}
use conurban_os.Kernel.Invariante.{MismaVista, lock_cola-vista, unlock_cola-vista, codigo-inj}

-- One queue has other contents.
pub record ConCola (e : Estado) (cola : List ℕ) (k k' : Kernel) : Type 0 where
  pub ella : k'.cola e ≡ cola
  pub otras : (e' : Estado) → codigo e ≢ codigo e' → k'.cola e' ≡ k.cola e'
  pub mapa : (a : ℕ) → k'.mapa_procesos a ≡ k.mapa_procesos a
  pub contador : k'.pid_counter ≡ k.pid_counter

-- The vistas before and after a change of one queue.
pub con_cola-vistas :
    (e : Estado) {cola cola' : List ℕ} {k k1 k' : Kernel}
    → cola' ≡ cola
    → MismaVista k k1
    → MismaVista (con_cola e cola' k1) k'
    → ConCola e cola k k'
con_cola-vistas e {cola} {cola'} {k} {k1} {k'} igual v w = record {
  ella = w.cola e ∙ en_estado_self k1.cola e cola' ∙ igual;
  otras = λ e' d. w.cola e' ∙ en_estado_ne k1.cola e e' cola' d ∙ v.cola e';
  mapa = λ a. w.mapa a ∙ v.mapa a;
  contador = w.contador ∙ v.contador;
}

-- The same contents as before is no change.
pub ConCola-vista : (e : Estado) {k k' : Kernel} → ConCola e (k.cola e) k k' → MismaVista k k'
ConCola-vista e {k} {k'} c = record {
  cola = λ e'. elim (ℕ_discrete (codigo e) (codigo e')) [
    | yes mismo ↦ rw (← codigo-inj e e' mismo) c.ella
    | no d ↦ c.otras e' d
  ];
  mapa = c.mapa;
  contador = c.contador;
}

-- An operation on a queue between its lock and its unlock.
abbrev pub con_lock : Estado → (List ℕ → List ℕ × Bool) → Kernel → Option (Kernel × Bool)
con_lock e op k = do
  k1 ← lock_cola e k
  let r = op (k1.cola e)
  k2 ← unlock_cola e (con_cola e r.0 k1)
  some (k2, r.1)

pub con_lock-efecto :
    (e : Estado) (op : List ℕ → List ℕ × Bool) {k k' : Kernel} {b : Bool}
    → con_lock e op k ≡ some (k', b)
    → ConCola e (op (k.cola e)).0 k k' × (b ≡ (op (k.cola e)).1)
con_lock-efecto e op {k} {k'} {b} h =
    let (k1, toma, h1) = bind_some (lock_cola e k) _ h in
    let (k2, suelta, h2) = bind_some (unlock_cola e (con_cola e (op (k1.cola e)).0 k1)) _ h1 in
    let v = lock_cola-vista e k toma in
    let fin : (k2, (op (k1.cola e)).1) ≡ (k', b) = some_inj h2 in
    let w : MismaVista (con_cola e (op (k1.cola e)).0 k1) k' =
      rw (ap (λ q. q.0) fin) at (unlock_cola-vista e (con_cola e (op (k1.cola e)).0 k1) suelta) in
    (
      con_cola-vistas e (ap (λ q. (op q).0) (v.cola e)) v w,
      sym (ap (λ q. q.1) fin) ∙ ap (λ q. (op q).1) (v.cola e),
    )

pub sacar_de-efecto :
    (e : Estado) (pid : ℕ) {k k' : Kernel} {b : Bool}
    → sacar_de e pid k ≡ some (k', b)
    → ConCola e (quitar pid (k.cola e)) k k' × (b ≡ esta pid (k.cola e))
unfolding sacar_de
sacar_de-efecto e pid {k} h =
    rw ((colas-referencia (k.cola e) pid).0) at
      (con_lock-efecto e (λ cola. eliminar_proceso_de_cola cola pid) h)

pub agregar_en-efecto :
    (e : Estado) (pid : ℕ) {k k' : Kernel} {b : Bool}
    → agregar_en e pid k ≡ some (k', b)
    → (ConCola e (k.cola e ++ pid ∷ []) k k' × (b ≡ true) × (esta pid (k.cola e) ≡ false))
      ⊎ ((b ≡ false) × (esta pid (k.cola e) ≡ true))
unfolding agregar_en
agregar_en-efecto e pid {k} {k'} {b} h =
    let (c, es) = con_lock-efecto e (λ cola. agregar_proceso_a_cola cola pid) h in
    let ref = (colas-referencia (k.cola e) pid).1 in
    elim (Bool-cases (esta pid (k.cola e))) [
      | inl si ↦ inr (es ∙ ap (λ q. q.1) ref ∙ rw si refl, si)
      | inr no_ ↦
          let agrega = ref ∙ rw no_ refl in inl (rw agrega at c, es ∙ ap (λ q. q.1) agrega, no_)
    ]
