-- ===== src/Memoria/Marcos/Busqueda.antt =====
-- What the search for free frames finds.
use conurban_os.Prelude.{
  ℕ, suc, ◌+◌, ◌-◌, ◌≤◌, ◌<◌, ◌≡◌, refl, ◌⊎◌, inl, inr, List, [], ◌∷◌, ◌++◌, Bool, true, false,
  none, some, arith, get_elem?, length, length-append, leb, Bool-cases, sym, leb→le, le→leb,
}
use mathlib.Core.List.{append_assoc}
use Prim.Native.Nat.{max}
use conurban_os.Memoria.Marcos.{buscar_desde, buscar_marcos_disponibles, contar_libres}

-- Free frames in increasing order, none below the bound.
abbrev pub Libres : ℕ → List ℕ → List Bool → Type 0
Libres lo [] ocupados = Unit {0}
Libres lo (f ∷ fs) ocupados =
    (lo ≤ f) × (get_elem? ocupados f ≡ some false) × Libres (suc f) fs ocupados

Libres-mono :
    (lo hi : ℕ) (fs : List ℕ) (ocupados : List Bool)
    → lo ≤ hi
    → Libres hi fs ocupados
    → Libres lo fs ocupados
Libres-mono lo hi [] ocupados h l = tt
Libres-mono lo hi (f ∷ fs) ocupados h l = (omega arith, l.1, l.2)

leb_no : (a b : ℕ) → b < a → leb a b ≡ false
leb_no a b h = ground arith

-- The frames from i on, where `faltan` of them are still wanted.
abbrev Encuentra : ℕ → List Bool → ℕ → List ℕ → ℕ → List Bool → Type 0
Encuentra i ocupados cantidad result faltan todos =
    ((buscar_desde i ocupados cantidad result ≡ none) × (contar_libres ocupados < faltan))
    ⊎ ((fs : List ℕ) × (buscar_desde i ocupados cantidad result ≡ some (result ++ fs))
        × Libres i fs todos
        × (length fs ≡ faltan)
        × (faltan ≤ contar_libres ocupados))

encuentra :
    (i : ℕ) (ocupados : List Bool) (cantidad : ℕ) (result : List ℕ) (faltan : ℕ) (todos : List Bool)
    → ((j : ℕ) → get_elem? todos (i + j) ≡ get_elem? ocupados j)
    → 0 < faltan
    → cantidad ≤ length result + faltan
    → (length result + faltan ≤ cantidad) ⊎ (faltan ≡ 1)
    → Encuentra i ocupados cantidad result faltan todos
unfolding buscar_desde contar_libres
encuentra i [] cantidad result faltan todos same pos le ge = inl (refl, pos)
encuentra i (true ∷ ocupados) cantidad result faltan todos same pos le ge =
    let same' : (j : ℕ) → get_elem? todos (suc i + j) ≡ get_elem? ocupados j =
      λ j. let s : suc i + j ≡ i + suc j = omega arith in rw s (same (suc j)) in
    elim (encuentra (suc i) ocupados cantidad result faltan todos same' pos le ge) [
      | inl n ↦ inl n
      | inr (fs, e, l, n, c) ↦ inr (fs, e, Libres-mono i (suc i) fs todos (omega arith) l, n, c)
    ]
encuentra i (false ∷ ocupados) cantidad result faltan todos same pos le ge =
    let largo : length (result ++ i ∷ []) ≡ length result + 1 = length-append result (i ∷ []) in
    let libre : get_elem? todos i ≡ some false = let z : i ≡ i + 0 = omega arith in rw z (same 0) in
    let same' : (j : ℕ) → get_elem? todos (suc i + j) ≡ get_elem? ocupados j =
      λ j. let s : suc i + j ≡ i + suc j = omega arith in rw s (same (suc j)) in
    elim (Bool-cases (leb cantidad (length (result ++ i ∷ [])))) [
      | inl enough ↦
          let last : faltan ≡ 1 = omega (arith, leb→le _ _ enough) in
          inr (i ∷ [], rw enough refl, (omega arith, libre, tt), sym last, omega arith)
      | inr more ↦
          let lt : length result + 1 < cantidad =
            ground (arith, le→leb cantidad (length (result ++ i ∷ []))) in
          elim (encuentra (suc i) ocupados cantidad (result ++ i ∷ []) (faltan - 1) todos same'
            (omega arith) (omega arith) (inl (omega arith))) [
              | inl (e, few) ↦ inl (rw more e, omega arith)
              | inr (fs, e, l, n, c) ↦ inr (
                i ∷ fs,
                rw more (rw append_assoc at e),
                (omega arith, libre, l),
                omega arith,
                omega arith,
              )
            ]
    ]

-- The search gives as many frames as are asked for, and one where none is asked for: they are
-- free, in increasing order; it gives nil exactly where there are fewer free frames than that.
pub buscar_marcos_disponibles_lem :
    (cantidad pedidos : ℕ) (ocupados : List Bool)
    → pedidos ≡ max 1 cantidad
    → ((buscar_marcos_disponibles cantidad ocupados ≡ none) × (contar_libres ocupados < pedidos))
      ⊎ ((fs : List ℕ) × (buscar_marcos_disponibles cantidad ocupados ≡ some fs)
          × Libres 0 fs ocupados
          × (length fs ≡ pedidos)
          × (pedidos ≤ contar_libres ocupados))
unfolding buscar_marcos_disponibles
buscar_marcos_disponibles_lem cantidad pedidos ocupados h =
    encuentra 0 ocupados cantidad [] pedidos ocupados
      (λ j. let z : 0 + j ≡ j = omega arith in rw z refl) (omega arith) (omega arith) (grind arith)
