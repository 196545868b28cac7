-- ===== src/Kernel/Colas/Referencia.antt =====
-- The queue operations against plain definitions by recursion.
use conurban_os.Prelude.{
  ℕ, suc, ◌+◌, ◌<◌, ◌≡◌, ◌≢◌, refl, ap, ◌∙◌, ◌⊎◌, inl, inr, List, [], ◌∷◌, ◌++◌, Bool, true, false,
  Option, none, some, arith, ◌==◌, if◌then◌else◌, take, drop, Bool-cases, ltb, lt→ltb,
}
use conurban_os.Kernel.Orden.{veces}
use conurban_os.Kernel.Colas.{buscar_pid_en_cola, agregar_proceso_a_cola, eliminar_proceso_de_cola}

-- The queue without the first occurrence of a pid.
abbrev pub quitar : ℕ → List ℕ → List ℕ
quitar pid [] = []
quitar pid (x ∷ xs) = if x == pid then xs else x ∷ quitar pid xs

-- The search finds the pid where it occurs, at the position that the removal cuts out.
abbrev Halla : ℕ → List ℕ → ℕ → Option ℕ → Type 0
Halla i cola pid r =
    ((r ≡ none) × (veces pid cola ≡ 0))
    ⊎ ((j : ℕ) × (r ≡ some (i + j))
        × (take j cola ++ drop (suc j) cola ≡ quitar pid cola)
        × (0 < veces pid cola))

buscar_lem : (i : ℕ) (cola : List ℕ) (pid : ℕ) → Halla i cola pid (buscar_pid_en_cola i cola pid)
unfolding buscar_pid_en_cola
buscar_lem i [] pid = inl (refl, refl)
buscar_lem i (x ∷ cola) pid = elim (Bool-cases (x == pid)) [
  | inl es ↦ inr (0, rw es (ap some (omega arith)), rw es refl, rw es (omega arith))
  | inr no_es ↦ elim (buscar_lem (suc i) cola pid) [
    | inl (nada, cero) ↦ inl (rw no_es nada, rw no_es cero)
    | inr (j, hay, corte, pos) ↦ inr (
      suc j,
      rw no_es (hay ∙ ap some (omega arith)),
      rw no_es (ap (λ q. x ∷ q) corte),
      rw no_es pos,
    )
  ]
]

pub quitar_nada : (pid : ℕ) (cola : List ℕ) → veces pid cola ≡ 0 → quitar pid cola ≡ cola
quitar_nada pid [] h = refl
quitar_nada pid (x ∷ cola) h = elim (Bool-cases (x == pid)) [
  | inl es ↦ absurd (ground arith)
  | inr no_es ↦ rw no_es (ap (λ q. x ∷ q) (quitar_nada pid cola (rw no_es at h)))
]

abbrev pub esta : ℕ → List ℕ → Bool
esta pid cola = ltb 0 (veces pid cola)

-- Taking a process off a queue is the removal of its first occurrence, and says whether there was
-- one; putting it in a queue appends it unless it is there, and says so.
pub colas-referencia :
    (cola : List ℕ) (pid : ℕ)
    → (eliminar_proceso_de_cola cola pid ≡ (quitar pid cola, esta pid cola))
      × (agregar_proceso_a_cola cola pid
          ≡ (if esta pid cola then (cola, false) else (cola ++ pid ∷ [], true)))
unfolding eliminar_proceso_de_cola agregar_proceso_a_cola
colas-referencia cola pid = elim (buscar_lem 0 cola pid) [
  | inl (nada, cero) ↦ (
    rw (eliminar_proceso_de_cola, nada, cero, quitar_nada pid cola cero) refl,
    rw (agregar_proceso_a_cola, nada, cero) refl,
  )
  | inr (j, hay, corte, pos) ↦
      let hay' : buscar_pid_en_cola 0 cola pid ≡ some j = hay ∙ ap some (omega arith) in
      let si : esta pid cola ≡ true = lt→ltb 0 (veces pid cola) pos in
      let uno : j + 1 ≡ suc j = omega arith in
      (
        rw (eliminar_proceso_de_cola, hay', uno, corte, si) refl,
        rw (agregar_proceso_a_cola, hay', si) refl,
      )
]

-- The occurrences after a removal and after an append.
pub veces-quitar :
    (pid : ℕ) (cola : List ℕ)
    → 0 < veces pid cola
    → (suc (veces pid (quitar pid cola)) ≡ veces pid cola)
      × ((a : ℕ) → pid ≢ a → veces a (quitar pid cola) ≡ veces a cola)
veces-quitar pid [] h = absurd (omega arith)
veces-quitar pid (x ∷ cola) h = elim (Bool-cases (x == pid)) [
  | inl es ↦ (rw es refl, λ a d. rw es (ground arith))
  | inr no_es ↦
      let (uno, otros) = veces-quitar pid cola (rw no_es at h) in
      (rw (no_es, no_es) uno, λ a d. let o = otros a d in rw no_es (ground arith))
]

pub veces-append : (a : ℕ) (xs ys : List ℕ) → veces a (xs ++ ys) ≡ veces a xs + veces a ys
veces-append a [] ys = omega arith
veces-append a (x ∷ xs) ys = let ih = veces-append a xs ys in ground arith
