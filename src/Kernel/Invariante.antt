-- ===== src/Kernel/Invariante.antt =====
-- The invariant of the queues, and the effects of steps on what it speaks of.
pub mod Efectos
pub mod Bloqueo
pub mod Cambios
pub mod Comienzo
pub mod Final
pub mod Rafagas
pub mod Despacho
pub mod Pasos
pub mod Rondas
pub mod Terminacion
pub mod Dispositivos
pub mod Llamadas
pub mod Solicitudes
pub mod Mudanzas
pub mod Ubicado
use conurban_os.Prelude.{
  ℕ, zero, suc, ◌⊎◌, inl, inr, ◌+◌, ◌<◌, ◌≤◌, ◌≡◌, ◌≢◌, refl, sym, ap, ◌∙◌, List, [], ◌∷◌, ◌++◌,
  Bool, true, false, Option, none, some, arith, ◌>>=◌, bind_some, ◌==◌, ==_self, if◌then◌else◌,
  Mapa, poner, poner_self, poner_ne, Bool-cases, Option-cases, some_inj,
}
use conurban_os.Kernel.Estado.{
  Estado, new, ready, execute, blocked, susp_blocked, susp_ready, codigo, en_estado, ProcesoKernel,
  Kernel,
}
use conurban_os.Kernel.Orden.{veces}
use conurban_os.Kernel.Colas.{lock_cola, unlock_cola, lock_proceso, unlock_proceso}

-- No queue has a process twice and no two queues have the same one, the pids of the queues and of the
-- map are among those that have been given, and a process of a queue that is in the map has there the
-- state of that queue. It may be in a queue and not in the map: manejarEXIT takes the process off the
-- queue of EXECUTE and off the map, wherever it is.
pub record Bien (k : Kernel) : Type 0 where
  pub una : (e : Estado) (pid : ℕ) → veces pid (k.cola e) ≤ 1
  pub sola :
      (e e' : Estado) (pid : ℕ) → 0 < veces pid (k.cola e) → 0 < veces pid (k.cola e') → e ≡ e'
  pub vistos : (e : Estado) (pid : ℕ) → 0 < veces pid (k.cola e) → pid < k.pid_counter
  pub estado :
      (e : Estado) (pid : ℕ) (p : ProcesoKernel)
      → 0 < veces pid (k.cola e)
      → k.mapa_procesos pid ≡ some p
      → p.estado_actual ≡ e
  pub clave : (pid : ℕ) (p : ProcesoKernel) → k.mapa_procesos pid ≡ some p → p.pid ≡ pid
  pub dados : (pid : ℕ) (p : ProcesoKernel) → k.mapa_procesos pid ≡ some p → pid < k.pid_counter

de_codigo : ℕ → Estado
de_codigo zero = new
de_codigo (suc zero) = ready
de_codigo (suc (suc zero)) = execute
de_codigo (suc (suc (suc zero))) = blocked
de_codigo (suc (suc (suc (suc zero)))) = susp_blocked
de_codigo _ = susp_ready

de_codigo-codigo : (e : Estado) → de_codigo (codigo e) ≡ e
unfolding de_codigo
de_codigo-codigo new = refl
de_codigo-codigo ready = refl
de_codigo-codigo execute = refl
de_codigo-codigo blocked = refl
de_codigo-codigo susp_blocked = refl
de_codigo-codigo susp_ready = refl

pub codigo-inj : (a b : Estado) → codigo a ≡ codigo b → a ≡ b
codigo-inj a b h = sym (de_codigo-codigo a) ∙ ap de_codigo h ∙ de_codigo-codigo b

-- Steps that touch nothing of what the invariant speaks of.
pub record MismaVista (k k' : Kernel) : Type 0 where
  pub cola : (e : Estado) → k'.cola e ≡ k.cola e
  pub mapa : (a : ℕ) → k'.mapa_procesos a ≡ k.mapa_procesos a
  pub contador : k'.pid_counter ≡ k.pid_counter

pub vista_trans : {k k' k'' : Kernel} → MismaVista k k' → MismaVista k' k'' → MismaVista k k''
vista_trans v w = record {
  cola = λ e. w.cola e ∙ v.cola e;
  mapa = λ a. w.mapa a ∙ v.mapa a;
  contador = w.contador ∙ v.contador;
}

pub vista_refl : (k : Kernel) → MismaVista k k
vista_refl k = record { cola = λ e. refl; mapa = λ a. refl; contador = refl }

pub vista-Bien : {k k' : Kernel} → MismaVista k k' → Bien k → Bien k'
vista-Bien {k} {k'} v b = record {
  una = λ e pid. rw v.cola (b.una e pid);
  sola = λ e e' pid h h'. b.sola e e' pid (rw v.cola at h) (rw v.cola at h');
  vistos = λ e pid h. rw v.contador (b.vistos e pid (rw v.cola at h));
  estado = λ e pid p h en. b.estado e pid p (rw v.cola at h) (sym (v.mapa pid) ∙ en);
  clave = λ pid p h. b.clave pid p (sym (v.mapa pid) ∙ h);
  dados = λ pid p h. rw v.contador (b.dados pid p (sym (v.mapa pid) ∙ h));
}

-- What the two ways out of a guard leave.
pub si_some {ℓ} : {A : Type ℓ} (b : Bool) {a c : A} → (if b then some a else none) ≡ some c → a ≡ c
si_some true h = some_inj h
si_some false h = absurd (ground arith)

pub no_some {ℓ} : {A : Type ℓ} (b : Bool) {a c : A} → (if b then none else some a) ≡ some c → a ≡ c
no_some true h = absurd (ground arith)
no_some false h = some_inj h

-- The two ways out of a test.
pub si_caso {ℓ} :
    {A : Type ℓ} (b : Bool) (x y : A) {z : A}
    → (if b then x else y) ≡ z
    → ((b ≡ true) × (x ≡ z)) ⊎ ((b ≡ false) × (y ≡ z))
si_caso true x y h = inl (refl, h)
si_caso false x y h = inr (refl, h)

-- The two ways out of a test for a value.
pub caso {ℓ κ} :
    {A : Type ℓ} {B : Type κ} (o : Option A) (x : B) (f : A → B) {y : B}
    → (elim o [ none ↦ x | some a ↦ f a ]) ≡ y
    → (x ≡ y) ⊎ ((a : A) × (o ≡ some a) × (f a ≡ y))
caso none x f h = inl h
caso (some a) x f h = inr (a, refl, h)

pub caso_lista {ℓ κ} :
    {A : Type ℓ} {B : Type κ} (xs : List A) (x : B) (f : A → List A → B) {y : B}
    → (elim xs [ [] ↦ x | a ∷ resto ↦ f a resto ]) ≡ y
    → (x ≡ y) ⊎ ((a : A) × (resto : List A) × (xs ≡ a ∷ resto) × (f a resto ≡ y))
caso_lista [] x f h = inl h
caso_lista (a ∷ resto) x f h = inr (a, resto, refl, h)

pub lock_cola-vista :
    (e : Estado) (k : Kernel) {k' : Kernel} → lock_cola e k ≡ some k' → MismaVista k k'
unfolding lock_cola
lock_cola-vista e k h =
    rw (← no_some (k.tomada e) h) (record { cola = λ e. refl; mapa = λ a. refl; contador = refl })

pub unlock_cola-vista :
    (e : Estado) (k : Kernel) {k' : Kernel} → unlock_cola e k ≡ some k' → MismaVista k k'
unfolding unlock_cola
unlock_cola-vista e k h =
    rw (← si_some (k.tomada e) h) (record { cola = λ e. refl; mapa = λ a. refl; contador = refl })

pub lock_proceso-vista :
    (pid : ℕ) (k : Kernel) {k' : Kernel} → lock_proceso pid k ≡ some k' → MismaVista k k'
unfolding lock_proceso
lock_proceso-vista pid k h =
    let (tomado, _, fin) = bind_some (k.procesos_mutex pid) _ h in
    rw (← no_some tomado fin) (record { cola = λ e. refl; mapa = λ a. refl; contador = refl })

pub unlock_proceso-vista :
    (pid : ℕ) (k : Kernel) {k' : Kernel} → unlock_proceso pid k ≡ some k' → MismaVista k k'
unfolding unlock_proceso
unlock_proceso-vista pid k h =
    let (tomado, _, fin) = bind_some (k.procesos_mutex pid) _ h in
    rw (← si_some tomado fin) (record { cola = λ e. refl; mapa = λ a. refl; contador = refl })
