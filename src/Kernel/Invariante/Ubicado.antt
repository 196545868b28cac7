-- ===== src/Kernel/Invariante/Ubicado.antt =====
-- A step that puts one process in one queue, and leaves the others where they were.
use conurban_os.Prelude.{ℕ, ◌<◌, ◌≤◌, ◌≡◌, ◌≢◌, sym, ◌∙◌, some, arith, ℕ_discrete, some_inj, ap}
use conurban_os.Kernel.Estado.{Estado, codigo, ProcesoKernel, Kernel}
use conurban_os.Kernel.Orden.{veces}
use conurban_os.Kernel.Invariante.{Bien, codigo-inj}

pub record Ubicado (e : Estado) (pid : ℕ) (k k' : Kernel) : Type 0 where
  pub otros : (e' : Estado) (a : ℕ) → pid ≢ a → veces a (k'.cola e') ≡ veces a (k.cola e')
  pub aqui : veces pid (k'.cola e) ≤ 1
  pub fuera : (e' : Estado) → codigo e ≢ codigo e' → veces pid (k'.cola e') ≡ 0
  pub proceso : ProcesoKernel
  pub el_suyo : k'.mapa_procesos pid ≡ some proceso
  pub los_demas : (a : ℕ) → pid ≢ a → k'.mapa_procesos a ≡ k.mapa_procesos a
  pub suyo : proceso.estado_actual ≡ e
  pub clave : proceso.pid ≡ pid
  pub dado : pid < k'.pid_counter
  pub contador : k.pid_counter ≤ k'.pid_counter

module _ {e : Estado} {pid : ℕ} {k k' : Kernel} (u : Ubicado e pid k k') where
  una_sola : Bien k → (e' : Estado) (a : ℕ) → veces a (k'.cola e') ≤ 1
  una_sola b e' a = elim (ℕ_discrete pid a) [
    | no d ↦ let o = u.otros e' a d in let v = b.una e' a in omega arith
    | yes es ↦ elim (ℕ_discrete (codigo e) (codigo e')) [
      | yes mismo ↦ rw (← es, ← codigo-inj e e' mismo) u.aqui
      | no d ↦ let f = u.fuera e' d in rw (← es) (omega arith)
    ]
  ]

  ahi : (e' : Estado) → 0 < veces pid (k'.cola e') → e ≡ e'
  ahi e' h = elim (ℕ_discrete (codigo e) (codigo e')) [
    | yes mismo ↦ codigo-inj e e' mismo
    | no d ↦ let f = u.fuera e' d in absurd (omega arith)
  ]

  en_una_sola :
      Bien k
      → (e1 e2 : Estado) (a : ℕ) → 0 < veces a (k'.cola e1)
      → 0 < veces a (k'.cola e2)
      → e1 ≡ e2
  en_una_sola b e1 e2 a h h' = elim (ℕ_discrete pid a) [
    | no d ↦
        let o = u.otros e1 a d in
        let o' = u.otros e2 a d in b.sola e1 e2 a (omega arith) (omega arith)
    | yes es ↦ sym (ahi e1 (rw (← es) at h)) ∙ ahi e2 (rw (← es) at h')
  ]

  ya_dado : Bien k → (e' : Estado) (a : ℕ) → 0 < veces a (k'.cola e') → a < k'.pid_counter
  ya_dado b e' a h = elim (ℕ_discrete pid a) [
    | no d ↦
        let o = u.otros e' a d in
        let v = b.vistos e' a (omega arith) in let c = u.contador in omega arith
    | yes es ↦ rw (← es) u.dado
  ]

  en_su_estado :
      Bien k
      → (e' : Estado) (a : ℕ) (p : ProcesoKernel) → 0 < veces a (k'.cola e')
      → k'.mapa_procesos a ≡ some p
      → p.estado_actual ≡ e'
  en_su_estado b e' a p h en = elim (ℕ_discrete pid a) [
    | no d ↦ let o = u.otros e' a d in b.estado e' a p (omega arith) (sym (u.los_demas a d) ∙ en)
    | yes es ↦
        let mismo : u.proceso ≡ p = some_inj (sym u.el_suyo ∙ rw (← es) at en) in
        ap (λ q. q.estado_actual) (sym mismo) ∙ u.suyo ∙ ahi e' (rw (← es) at h)
  ]

  sus_claves :
      Bien k
      → (a : ℕ) (p : ProcesoKernel) → k'.mapa_procesos a ≡ some p
      → (p.pid ≡ a) × (a < k'.pid_counter)
  sus_claves b a p h = elim (ℕ_discrete pid a) [
    | no d ↦
        let h' = sym (u.los_demas a d) ∙ h in
        let m = b.dados a p h' in let c = u.contador in (b.clave a p h', omega arith)
    | yes es ↦
        let mismo : u.proceso ≡ p = some_inj (sym u.el_suyo ∙ rw (← es) at h) in
        (rw (← mismo, ← es) u.clave, rw (← es) u.dado)
  ]

  pub Ubicado-Bien : Bien k → Bien k'
  Ubicado-Bien b = record {
    una = una_sola b;
    sola = en_una_sola b;
    vistos = ya_dado b;
    estado = en_su_estado b;
    clave = λ a p h. (sus_claves b a p h).0;
    dados = λ a p h. (sus_claves b a p h).1;
  }
