-- ===== src/Memoria/Swap/Indices.antt =====
-- The block of swap indices that a suspended process gets.
use conurban_os.Prelude.{
  ℕ, zero, suc, ◌+◌, ◌≤◌, ◌<◌, ◌≡◌, refl, ◌⊎◌, inl, inr, List, [], ◌∷◌, ◌++◌, Bool, true, false,
  some, arith, get_elem?, set, length, leb, replicate, Bool-cases, Option-cases, get_elem?-set_self,
  get_elem?-set_ne, length-set, leb→le, ◌∙◌, ◌-◌, get_elem?_lt, ℕ_discrete,
}
use conurban_os.Memoria.Swap.{hay_ocupado, buscar_bloque, ocupar, obtener_indice_swap_disponible}

hay_ocupado-false :
    (n : ℕ) (ocupados : List Bool) (j : ℕ)
    → n ≤ length ocupados
    → hay_ocupado n ocupados ≡ false
    → j < n
    → get_elem? ocupados j ≡ some false
unfolding hay_ocupado
hay_ocupado-false zero ocupados j le h lt = absurd (omega arith)
hay_ocupado-false (suc n) [] j le h lt = absurd (omega arith)
hay_ocupado-false (suc n) (true ∷ ocupados) j le h lt = cc
hay_ocupado-false (suc n) (false ∷ ocupados) zero le h lt = refl
hay_ocupado-false (suc n) (false ∷ ocupados) (suc j) le h lt =
    hay_ocupado-false n ocupados j (omega arith) h (omega arith)

-- A block that is found is free, in the marks of which the loop sees the end.
bloque_libre :
    (n i : ℕ) (ocupados todos : List Bool) (b j : ℕ)
    → ((k : ℕ) → get_elem? todos (i + k) ≡ get_elem? ocupados k)
    → buscar_bloque n i ocupados ≡ some b
    → j < n
    → get_elem? todos (b + j) ≡ some false
unfolding buscar_bloque
bloque_libre n i [] todos b j same h lt = absurd (ground arith)
bloque_libre n i (o ∷ ocupados) todos b j same h lt =
    elim (Bool-cases (leb n (length (o ∷ ocupados)))) [
      | inr far ↦ absurd (ground arith)
      | inl near ↦ elim (Bool-cases (hay_ocupado n (o ∷ ocupados))) [
        | inr free ↦
            let e : i ≡ b = ground arith in
            rw (← e) (same j ∙ hay_ocupado-false n (o ∷ ocupados) j (leb→le _ _ near) free lt)
        | inl taken ↦
            bloque_libre n (suc i) ocupados todos b j
              (λ k. let s : suc i + k ≡ i + suc k = omega arith in rw s (same (suc k)))
              (ground arith) lt
      ]
    ]

length-ocupar : (n i : ℕ) (ocupados : List Bool) → length (ocupar i n ocupados) ≡ length ocupados
unfolding ocupar
length-ocupar zero i ocupados = refl
length-ocupar (suc n) i ocupados =
    length-ocupar n (suc i) (set ocupados i true) ∙ length-set ocupados i true

ocupar_fuera :
    (n i : ℕ) (ocupados : List Bool) (j : ℕ)
    → (j < i) ⊎ (i + n ≤ j)
    → get_elem? (ocupar i n ocupados) j ≡ get_elem? ocupados j
unfolding ocupar
ocupar_fuera zero i ocupados j h = refl
ocupar_fuera (suc n) i ocupados j h =
    ocupar_fuera n (suc i) (set ocupados i true) j (grind arith)
    ∙ get_elem?-set_ne ocupados i j true (grind arith)

ocupar_dentro :
    (n i : ℕ) (ocupados : List Bool) (j : ℕ)
    → i ≤ j
    → j < i + n
    → j < length ocupados
    → get_elem? (ocupar i n ocupados) j ≡ some true
unfolding ocupar
ocupar_dentro zero i ocupados j le lt in_range = absurd (omega arith)
ocupar_dentro (suc n) i ocupados j le lt in_range = elim (ℕ_discrete i j) [
  | yes e ↦
      ocupar_fuera n (suc i) (set ocupados i true) j (inl (omega arith))
      ∙ rw e (get_elem?-set_self ocupados j true in_range)
  | no d ↦
      ocupar_dentro n (suc i) (set ocupados i true) j (omega arith) (omega arith)
        (omega (arith, length-set ocupados i true))
]

append_antes : (xs ys : List Bool) (j : ℕ) → j < length xs → get_elem? (xs ++ ys) j ≡ get_elem? xs j
append_antes [] ys j h = absurd (omega arith)
append_antes (x ∷ xs) ys zero h = refl
append_antes (x ∷ xs) ys (suc j) h = append_antes xs ys j (omega arith)

append_nuevos :
    (xs : List Bool) (n j : ℕ)
    → length xs ≤ j
    → j < length xs + n
    → get_elem? (xs ++ replicate n true) j ≡ some true
append_nuevos [] zero j le lt = absurd (omega arith)
append_nuevos [] (suc n) zero le lt = refl
append_nuevos [] (suc n) (suc j) le lt = append_nuevos [] n j (omega arith) (omega arith)
append_nuevos (x ∷ xs) n zero le lt = absurd (omega arith)
append_nuevos (x ∷ xs) n (suc j) le lt = append_nuevos xs n j (omega arith) (omega arith)

append_despues :
    (xs : List Bool) (n j : ℕ)
    → length xs + n ≤ j
    → get_elem? (xs ++ replicate n true) j ≡ get_elem? xs j
append_despues [] zero j h = refl
append_despues [] (suc n) zero h = absurd (omega arith)
append_despues [] (suc n) (suc j) h = append_despues [] n j (omega arith)
append_despues (x ∷ xs) n zero h = absurd (omega arith)
append_despues (x ∷ xs) n (suc j) h = append_despues xs n j (omega arith)

pub record Bloque (n : ℕ) (ocupados : List Bool) (inicio : ℕ) (ocupados' : List Bool) : Type 0 where
  pub era_libre :
      (j : ℕ)
      → inicio ≤ j
      → j < inicio + n
      → (get_elem? ocupados j ≡ some false) ⊎ (length ocupados ≤ j)
  pub es_suyo : (j : ℕ) → inicio ≤ j → j < inicio + n → get_elem? ocupados' j ≡ some true
  pub otros :
      (j : ℕ) → (j < inicio) ⊎ (inicio + n ≤ j) → get_elem? ocupados' j ≡ get_elem? ocupados j

Bloque-hallado :
    (n : ℕ) (ocupados : List Bool) (b : ℕ)
    → buscar_bloque n 0 ocupados ≡ some b
    → Bloque n ocupados b (ocupar b n ocupados)
Bloque-hallado n ocupados b h = record {
  era_libre = λ j le lt. inl (libre j le lt);
  es_suyo =
      λ j le lt. ocupar_dentro n b ocupados j le lt (get_elem?_lt ocupados j false (libre j le lt));
  otros = λ j out. ocupar_fuera n b ocupados j out;
}
  where
    libre : (j : ℕ) → b ≤ j → j < b + n → get_elem? ocupados j ≡ some false
    libre j le lt =
        let s : b + (j - b) ≡ j = omega arith in
        rw s at (
          bloque_libre n 0 ocupados ocupados b (j - b)
            (λ k. let z : 0 + k ≡ k = omega arith in rw z refl) h (omega arith))

al_final :
    (xs : List Bool) (n j : ℕ)
    → (j < length xs) ⊎ (length xs + n ≤ j)
    → get_elem? (xs ++ replicate n true) j ≡ get_elem? xs j
al_final xs n j (inl h) = append_antes xs (replicate n true) j h
al_final xs n j (inr h) = append_despues xs n j h

-- The block that is given had no index in use; afterwards all of it is marked, and no other mark
-- has changed.
pub obtener_indice-Bloque :
    (n : ℕ) (ocupados : List Bool)
    → Bloque n ocupados
        (obtener_indice_swap_disponible n ocupados).0
        (obtener_indice_swap_disponible n ocupados).1
unfolding obtener_indice_swap_disponible
obtener_indice-Bloque n ocupados = elim (Option-cases (buscar_bloque n 0 ocupados)) [
  | inr (b, e) ↦ rw (e, obtener_indice_swap_disponible) (Bloque-hallado n ocupados b e)
  | inl e ↦
      rw (e, obtener_indice_swap_disponible)
        (record {
          era_libre = λ j le lt. inr le;
          es_suyo = λ j le lt. append_nuevos ocupados n j le lt;
          otros = λ j out. al_final ocupados n j out;
        })
]
