-- ===== src/Kernel/Invariante/Comienzo.antt =====
-- The creation of a process keeps the invariant.
use conurban_os.Prelude.{
  ℕ, suc, ◌+◌, ◌≡◌, ◌≢◌, refl, ap, ◌∙◌, ◌⊎◌, inl, inr, [], ◌∷◌, ◌++◌, Bool, true, false, some,
  bind_some, arith, some_inj, Bool-cases, Option-cases, ltb, length, poner_self, poner_ne,
  ℕ_discrete, if◌then◌else◌,
}
use Prim.Native.String.{String}
use conurban_os.Kernel.Estado.{
  Estado, new, codigo, ProcesoKernel, Kernel, signal_pasar_proceso_a_ready,
}
use conurban_os.Kernel.Orden.{veces, Sort}
use conurban_os.Kernel.Colas.{lock_cola, lock_proceso, con_cola}
use conurban_os.Kernel.Colas.Mudanza.{en_estado_self, en_estado_ne}
use conurban_os.Kernel.Colas.Referencia.{veces-append}
use conurban_os.Kernel.Largo.{
  con_mutex, asignar_pid, agregar_a_mapa_mutex, con_proceso, agregar_a_mapa_procesos, proceso_nuevo,
  crear_estructuras_proceso, mas_chico, ordenar_por_tamanio, ordenar_si_pmcp, agregar_a_new,
  crear_proceso_nuevo, se_puede_comparar, todos,
}
use conurban_os.Kernel.Invariante.{
  Bien, MismaVista, vista_refl, si_some, lock_cola-vista, unlock_cola-vista, lock_proceso-vista,
  unlock_proceso-vista, codigo-inj,
}
use conurban_os.Kernel.Invariante.Ubicado.{Ubicado}

pub con_mutex-vistas :
    (pid : ℕ) (f : Kernel → Kernel) (k : Kernel) {k' : Kernel}
    → con_mutex pid f k ≡ some k'
    → (k1 : Kernel) × MismaVista k k1 × MismaVista (f k1) k'
con_mutex-vistas pid f k h =
    let (k1, toma, suelta) = bind_some (lock_proceso pid k) _ h in
    (k1, lock_proceso-vista pid k toma, unlock_proceso-vista pid (f k1) suelta)

pub signal-vista :
    (k : Kernel) {k' : Kernel} → signal_pasar_proceso_a_ready k ≡ some k' → MismaVista k k'
unfolding signal_pasar_proceso_a_ready
signal-vista k h = elim (Bool-cases (ltb k.sem_pasar_proceso_a_ready 1000)) [
  | inl hay ↦
      rw (← some_inj (rw (signal_pasar_proceso_a_ready, hay) at h))
        (record { cola = λ e. refl; mapa = λ a. refl; contador = refl })
  | inr llena ↦ let x = rw (signal_pasar_proceso_a_ready, llena) at h in absurd (ground arith)
]

-- The queues have the same pids, in some order.
pub record MismasCuentas (k k' : Kernel) : Type 0 where
  pub cuentas : (e : Estado) (a : ℕ) → veces a (k'.cola e) ≡ veces a (k.cola e)
  pub mapa : (a : ℕ) → k'.mapa_procesos a ≡ k.mapa_procesos a
  pub contador : k'.pid_counter ≡ k.pid_counter

mismas : {k k' : Kernel} → k ≡ k' → MismasCuentas k k'
mismas {k} h = rw (← h) (record { cuentas = λ e a. refl; mapa = λ a. refl; contador = refl })

-- One more pid in the queue of the new ones.
record Sumado (pid : ℕ) (k k' : Kernel) : Type 0 where
  pub aqui : (a : ℕ) → veces a (k'.cola new) ≡ veces a (k.cola new) + veces a (pid ∷ [])
  pub otras :
      (e : Estado) (a : ℕ) → codigo new ≢ codigo e → veces a (k'.cola e) ≡ veces a (k.cola e)
  pub mapa : (a : ℕ) → k'.mapa_procesos a ≡ k.mapa_procesos a
  pub contador : k'.pid_counter ≡ k.pid_counter

si_o {ℓ} : {A : Type ℓ} (b : Bool) {x y z : A} → (if b then x else y) ≡ z → (x ≡ z) ⊎ (y ≡ z)
si_o true h = inl h
si_o false h = inr h

module _ (sort : Sort) where
  pub ordenada :
      (menor : ℕ → ℕ → Bool) (e : Estado) (k : Kernel)
      → MismasCuentas k (con_cola e (sort.slice menor (k.cola e)) k)
  ordenada menor e k = record {
    cuentas = λ e' a. elim (ℕ_discrete (codigo e) (codigo e')) [
      | yes mismo ↦
          rw (← codigo-inj e e' mismo, en_estado_self k.cola e (sort.slice menor (k.cola e)))
            (sort.veces-slice menor (k.cola e) a)
      | no d ↦ ap (veces a) (en_estado_ne k.cola e e' _ d)
    ];
    mapa = λ a. refl;
    contador = refl;
  }

  pub ordenar_si_pmcp-cuentas :
      (e : Estado) (k : Kernel) {k' : Kernel}
      → ordenar_si_pmcp sort e k ≡ some k'
      → MismasCuentas k k'
  unfolding ordenar_por_tamanio
  ordenar_si_pmcp-cuentas e k h = elim (si_o k.pmcp h) [
    | inr igual ↦ mismas (some_inj igual)
    | inl ordena ↦ elim (si_o (ltb (length (k.cola e)) 2) ordena) [
      | inl igual ↦ mismas (some_inj igual)
      | inr larga ↦
          rw (← si_some (todos (se_puede_comparar k) (k.cola e)) larga) (ordenada (mas_chico k) e k)
    ]
  ]

  agregar_a_new-efecto :
      (pid : ℕ) (k : Kernel) {k' : Kernel} → agregar_a_new sort pid k ≡ some k' → Sumado pid k k'
  unfolding agregar_a_new
  agregar_a_new-efecto pid k h =
      let (k1, toma, h1) = bind_some (lock_cola new k) _ h in
      let cola = k1.cola new ++ pid ∷ [] in
      let (k2, ordena, suelta) = bind_some (ordenar_si_pmcp sort new (con_cola new cola k1)) _ h1 in
      let v = lock_cola-vista new k toma in
      let c = ordenar_si_pmcp-cuentas new (con_cola new cola k1) ordena in
      let w = unlock_cola-vista new k2 suelta in
      record {
        aqui = λ a.
            ap (veces a) (w.cola new)
            ∙ c.cuentas new a
            ∙ ap (veces a) (en_estado_self k1.cola new cola)
            ∙ veces-append a (k1.cola new) (pid ∷ [])
            ∙ rw (v.cola new) refl;
        otras = λ e a d.
            ap (veces a) (w.cola e)
            ∙ c.cuentas e a
            ∙ ap (veces a) (en_estado_ne k1.cola new e cola d ∙ v.cola e);
        mapa = λ a. w.mapa a ∙ c.mapa a ∙ v.mapa a;
        contador = w.contador ∙ c.contador ∙ v.contador;
      }

-- The map may have changed at one pid.
record Toca (pid : ℕ) (k k' : Kernel) : Type 0 where
  pub cola : (e : Estado) → k'.cola e ≡ k.cola e
  pub los_demas : (a : ℕ) → pid ≢ a → k'.mapa_procesos a ≡ k.mapa_procesos a
  pub contador : k'.pid_counter ≡ k.pid_counter

vistas-Toca :
    {pid : ℕ} {k k1 k2 k' : Kernel}
    → MismaVista k k1
    → Toca pid k1 k2
    → MismaVista k2 k'
    → Toca pid k k'
vistas-Toca v t w = record {
  cola = λ e. w.cola e ∙ t.cola e ∙ v.cola e;
  los_demas = λ a d. w.mapa a ∙ t.los_demas a d ∙ v.mapa a;
  contador = w.contador ∙ t.contador ∙ v.contador;
}

con_proceso-Toca : (pid : ℕ) (p : ProcesoKernel) (k : Kernel) → Toca pid k (con_proceso pid p k)
con_proceso-Toca pid p k = record {
  cola = λ e. refl;
  los_demas = poner_ne k.mapa_procesos pid p;
  contador = refl;
}

mapa_mutex-vista : (pid : ℕ) (k : Kernel) → MismaVista k (agregar_a_mapa_mutex pid k)
unfolding agregar_a_mapa_mutex
mapa_mutex-vista pid k = elim (Option-cases (k.procesos_mutex pid)) [
  | inl nada ↦
      rw (agregar_a_mapa_mutex, nada)
        (record { cola = λ e. refl; mapa = λ a. refl; contador = refl })
  | inr (t, hay) ↦ rw (agregar_a_mapa_mutex, hay) (vista_refl k)
]

mapa_procesos-Toca :
    (pid : ℕ) (k : Kernel) {k' : Kernel} → agregar_a_mapa_procesos pid k ≡ some k' → Toca pid k k'
unfolding agregar_a_mapa_procesos
mapa_procesos-Toca pid k h =
    let (k1, v, w) = con_mutex-vistas pid _ k h in
    elim (Option-cases (k1.mapa_procesos pid)) [
      | inl nada ↦ vistas-Toca v (con_proceso-Toca pid _ k1) (rw nada at w)
      | inr (p, hay) ↦
          vistas-Toca v (record { cola = λ e. refl; los_demas = λ a d. refl; contador = refl })
            (rw hay at w)
    ]

estructuras-Toca :
    (pid : ℕ) (archivo : String) (tamanio ahora : ℕ) (k : Kernel) {k' : Kernel}
    → crear_estructuras_proceso pid archivo tamanio ahora k ≡ some k'
    → Toca pid k k' × (k'.mapa_procesos pid ≡ some (proceso_nuevo pid archivo tamanio ahora))
unfolding crear_estructuras_proceso
estructuras-Toca pid archivo tamanio ahora k h =
    let p = proceso_nuevo pid archivo tamanio ahora in
    let (k1, v, w) = con_mutex-vistas pid (con_proceso pid p) k h in
    (vistas-Toca v (con_proceso-Toca pid p k1) w, w.mapa pid ∙ poner_self k1.mapa_procesos pid p)

-- A pid that was not given yet is in no queue.
pub sin_dar : {k : Kernel} → Bien k → (e : Estado) → veces k.pid_counter (k.cola e) ≡ 0
sin_dar {k} b e = elim (ℕ_discrete (veces k.pid_counter (k.cola e)) 0) [
  | yes cero ↦ cero
  | no mas ↦ let d = b.vistos e k.pid_counter (omega arith) in absurd (omega arith)
]

pub crear_proceso_nuevo-Ubicado :
    (sort : Sort) (archivo : String) (tamanio ahora : ℕ) (k : Kernel) {k' : Kernel}
    → crear_proceso_nuevo sort archivo tamanio ahora k ≡ some k'
    → Bien k
    → (u : Ubicado new k.pid_counter k k') × (u.proceso
        ≡ proceso_nuevo k.pid_counter archivo tamanio ahora)
      × (k'.pid_counter ≡ suc k.pid_counter)
unfolding crear_proceso_nuevo asignar_pid
crear_proceso_nuevo-Ubicado sort archivo tamanio ahora k {k'} h b =
    let pid = k.pid_counter in
    let k0 : Kernel = record k { pid_counter = pid + 1 } in
    let k1 = agregar_a_mapa_mutex pid k0 in
    let (k2, agrega, h1) = bind_some (agregar_a_mapa_procesos pid k1) _ h in
    let (k3, crea, h2) = bind_some (crear_estructuras_proceso pid archivo tamanio ahora k2) _ h1 in
    let (k4, encola, avisa) = bind_some (agregar_a_new sort pid k3) _ h2 in
    let v = mapa_mutex-vista pid k0 in
    let t = mapa_procesos-Toca pid k1 agrega in
    let (t', suyo) = estructuras-Toca pid archivo tamanio ahora k2 crea in
    let s = agregar_a_new-efecto sort pid k3 encola in
    let w = signal-vista k4 avisa in
    let colas : (e : Estado) → k3.cola e ≡ k.cola e = λ e. t'.cola e ∙ t.cola e ∙ v.cola e in
    let cont : k'.pid_counter ≡ suc k.pid_counter =
      w.contador ∙ s.contador ∙ t'.contador ∙ t.contador ∙ v.contador ∙ (omega arith) in
    (
      record {
        otros = λ e a d. elim (ℕ_discrete (codigo new) (codigo e)) [
          | yes mismo ↦
              let suma = s.aqui a in
              let q = ap (veces a) (w.cola new) in
              let c = ap (veces a) (colas new) in rw (← codigo-inj new e mismo) (ground arith)
          | no d' ↦ ap (veces a) (w.cola e) ∙ s.otras e a d' ∙ ap (veces a) (colas e)
        ];
        aqui =
            let suma = s.aqui pid in
            let q = ap (veces pid) (w.cola new) in
            let c = ap (veces pid) (colas new) in let z = sin_dar b new in ground arith;
        fuera = λ e d.
            ap (veces pid) (w.cola e) ∙ s.otras e pid d ∙ ap (veces pid) (colas e) ∙ sin_dar b e;
        proceso = proceso_nuevo pid archivo tamanio ahora;
        el_suyo = w.mapa pid ∙ s.mapa pid ∙ suyo;
        los_demas = λ a d. w.mapa a ∙ s.mapa a ∙ t'.los_demas a d ∙ t.los_demas a d ∙ v.mapa a;
        suyo = refl;
        clave = refl;
        dado = omega arith;
        contador = omega arith;
      },
      refl,
      cont,
    )
