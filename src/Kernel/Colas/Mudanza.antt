-- ===== src/Kernel/Colas/Mudanza.antt =====
-- A change of state that goes well.
use conurban_os.Prelude.{
  ℕ, ◌+◌, ◌≡◌, ◌≢◌, refl, sym, ◌∙◌, List, [], ◌∷◌, ◌++◌, true, false, none, some, arith, ==_self,
  poner, poner_self,
}
use conurban_os.Kernel.Estado.{Estado, codigo, en_estado, ProcesoKernel, Kernel}
use conurban_os.Kernel.Colas.{
  lock_cola, unlock_cola, sacar_de, agregar_en, mover, cambiar_estado, con_cola, con_metricas,
  eliminar_proceso_de_cola, agregar_proceso_a_cola, buscar_pid_en_cola,
}

pub en_estado_self {ℓ} : {A : Type ℓ} (f : Estado → A) (e : Estado) (a : A) → en_estado f e a e ≡ a
en_estado_self f e a = rw (==_self (codigo e)) refl

pub en_estado_ne {ℓ} :
    {A : Type ℓ} (f : Estado → A) (e e' : Estado) (a : A)
    → codigo e ≢ codigo e'
    → en_estado f e a e' ≡ f e'
en_estado_ne f e e' a h = ground arith

-- A lock and its unlock.
abbrev pub soltada : Estado → Kernel → Kernel
soltada e k = record k { tomada = en_estado (en_estado k.tomada e true) e false }

sacar_lem :
    (e : Estado) (pid : ℕ) (k : Kernel)
    → k.tomada e ≡ false
    → sacar_de e pid k
      ≡ some (
        con_cola e (eliminar_proceso_de_cola (k.cola e) pid).0 (soltada e k),
        (eliminar_proceso_de_cola (k.cola e) pid).1,
      )
unfolding sacar_de lock_cola unlock_cola
sacar_lem e pid k libre = rw (libre, ==_self (codigo e)) refl

pub agregar_lem :
    (e : Estado) (pid : ℕ) (k : Kernel)
    → k.tomada e ≡ false
    → agregar_en e pid k
      ≡ some (
        con_cola e (agregar_proceso_a_cola (k.cola e) pid).0 (soltada e k),
        (agregar_proceso_a_cola (k.cola e) pid).1,
      )
unfolding agregar_en lock_cola unlock_cola
agregar_lem e pid k libre = rw (libre, ==_self (codigo e)) refl

soltada_libre : (e e' : Estado) (k : Kernel) → k.tomada e' ≡ false → (soltada e k).tomada e' ≡ false
soltada_libre e e' k libre = ground arith

pub buscar_agrega :
    (cola : List ℕ) (pid : ℕ)
    → buscar_pid_en_cola 0 cola pid ≡ none
    → agregar_proceso_a_cola cola pid ≡ (cola ++ pid ∷ [], true)
unfolding agregar_proceso_a_cola
buscar_agrega cola pid fuera = rw (agregar_proceso_a_cola, fuera) refl

-- The process has passed from one queue to the end of the other, in its new state, and no mutex
-- that was free is held.
pub record Mudado (viejo nuevo : Estado) (pid : ℕ) (p : ProcesoKernel) (k k' : Kernel)
    : Type 0 where
  pub origen : k'.cola viejo ≡ (eliminar_proceso_de_cola (k.cola viejo) pid).0
  pub destino : k'.cola nuevo ≡ k.cola nuevo ++ pid ∷ []
  pub otras :
      (e : Estado) → codigo viejo ≢ codigo e → codigo nuevo ≢ codigo e → k'.cola e ≡ k.cola e
  pub libres : (e : Estado) → k.tomada e ≡ false → k'.tomada e ≡ false
  pub procesos_mutex : k'.procesos_mutex ≡ k.procesos_mutex
  pub proceso :
      (q : ProcesoKernel) × (k'.mapa_procesos pid ≡ some q)
      × (q.estado_actual ≡ nuevo)
      × (q.me viejo ≡ p.me viejo + 1)
      × (q.rafagas ≡ p.rafagas)

-- Of a known process that is in one queue and not in the other, where the mutexes of the two
-- queues are free, the move with the change of state returns true: the process passes to the end
-- of the other queue, in its new state; the other queues stay and no mutex that was free is held.
pub mover-Mudado :
    (viejo nuevo : Estado) (pid ahora : ℕ) (p : ProcesoKernel) (k : Kernel)
    → codigo viejo ≢ codigo nuevo
    → k.tomada viejo ≡ false
    → k.tomada nuevo ≡ false
    → (eliminar_proceso_de_cola (k.cola viejo) pid).1 ≡ true
    → buscar_pid_en_cola 0 (k.cola nuevo) pid ≡ none
    → k.mapa_procesos pid ≡ some p
    → (k' : Kernel) × (mover viejo nuevo (cambiar_estado pid viejo nuevo ahora) pid k
        ≡ some (k', true))
      × Mudado viejo nuevo pid p k k'
unfolding mover cambiar_estado
mover-Mudado viejo nuevo pid ahora p k distintos libre libre' esta fuera existe =
    let q = con_metricas viejo ahora (record p { estado_actual = nuevo }) in
    let k1 = con_cola viejo (eliminar_proceso_de_cola (k.cola viejo) pid).0 (soltada viejo k) in
    let igual : k1.cola nuevo ≡ k.cola nuevo = en_estado_ne k.cola viejo nuevo _ distintos in
    let agrega = buscar_agrega (k1.cola nuevo) pid (rw igual fuera) in
    let k2 = con_cola nuevo (k1.cola nuevo ++ pid ∷ []) (soltada nuevo k1) in
    let k' : Kernel = record k2 { mapa_procesos = poner k.mapa_procesos pid q } in
    (
      k',
      rw
          (
            sacar_lem viejo pid k libre,
            esta,
            agregar_lem nuevo pid k1 (soltada_libre viejo nuevo k libre'),
            agrega,
            existe,
          )
          refl,
      record {
        origen =
            en_estado_ne k1.cola nuevo viejo _ (λ h. distintos (sym h))
            ∙ en_estado_self k.cola viejo _;
        destino = en_estado_self k1.cola nuevo _ ∙ rw igual refl;
        otras = λ e d d'. en_estado_ne k1.cola nuevo e _ d' ∙ en_estado_ne k.cola viejo e _ d;
        libres = λ e h. soltada_libre nuevo e k1 (soltada_libre viejo e k h);
        procesos_mutex = refl;
        proceso = (q, poner_self k.mapa_procesos pid q, refl, en_estado_self p.me viejo _, refl);
      },
    )
