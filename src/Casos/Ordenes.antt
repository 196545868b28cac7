-- ===== src/Casos/Ordenes.antt =====
-- A sort that puts the least element first, and the numbers as estimates.
use conurban_os.Prelude.{
  ◌*◌, ℕ, zero, suc, ◌-◌, ◌<◌, ==_self, ◌≡◌, refl, ◌∙◌, inl, inr, List, [], ◌∷◌, Bool, false, some,
  Bool-cases, get_elem?, some_inj, arith, if◌then◌else◌, ltb, ◌+◌,
}
use conurban_os.Kernel.Orden.{veces, IsEstricto, Sort, Estimados}

-- One pass of bubble sort, from the end.
abbrev delante : (ℕ → ℕ → Bool) → ℕ → List ℕ → List ℕ
delante menor x [] = x ∷ []
delante menor x (p ∷ ps) = if menor p x then p ∷ x ∷ ps else x ∷ p ∷ ps

abbrev pasada : (ℕ → ℕ → Bool) → List ℕ → List ℕ
pasada menor [] = []
pasada menor (x ∷ xs) = delante menor x (pasada menor xs)

veces-delante :
    (menor : ℕ → ℕ → Bool) (x : ℕ) (xs : List ℕ) (a : ℕ)
    → veces a (delante menor x xs) ≡ veces a (x ∷ xs)
veces-delante menor x [] a = refl
veces-delante menor x (p ∷ ps) a = elim (Bool-cases (menor p x)) [
  | inl si ↦ rw si (ground arith)
  | inr no_ ↦ rw no_ refl
]

pub veces-pasada :
    (menor : ℕ → ℕ → Bool) (xs : List ℕ) (a : ℕ) → veces a (pasada menor xs) ≡ veces a xs
veces-pasada menor [] a = refl
veces-pasada menor (x ∷ xs) a =
    let ih = veces-pasada menor xs a in veces-delante menor x (pasada menor xs) a ∙ ground arith

get_elem?-veces : (xs : List ℕ) (a i : ℕ) → get_elem? xs i ≡ some a → 0 < veces a xs
get_elem?-veces [] a i h = absurd (ground arith)
get_elem?-veces (x ∷ xs) a zero h = rw (some_inj h, ==_self a) (omega arith)
get_elem?-veces (x ∷ xs) a (suc i) h = let ih = get_elem?-veces xs a i h in ground arith

module _ (menor : ℕ → ℕ → Bool) (ys : List ℕ) (e : IsEstricto menor ys) where
  irreflexivo : (a : ℕ) → 0 < veces a ys → menor a a ≡ false
  irreflexivo a en = elim (Bool-cases (menor a a)) [
    | inl si ↦ e.asimetrico a a en en si
    | inr no_ ↦ no_
  ]

  delante-primero :
      (x : ℕ) (r : List ℕ) (p : ℕ)
      → 0 < veces x ys
      → ((a : ℕ) → 0 < veces a r → 0 < veces a ys)
      → get_elem? (delante menor x r) 0 ≡ some p
      → (menor x p ≡ false)
        × ((q b : ℕ)
            → 0 < veces b ys
            → get_elem? r 0 ≡ some q
            → menor b q ≡ false
            → menor b p ≡ false)
  delante-primero x [] p en dentro h =
      (rw (← some_inj h) (irreflexivo x en), λ q b _ g _. absurd (ground arith))
  delante-primero x (r ∷ rs) p en dentro h =
      let en_r = dentro r (rw (==_self r) (omega arith)) in
      elim (Bool-cases (menor r x)) [
        | inl si ↦
            let mismo = some_inj (rw si at h) in
            (rw (← mismo) (e.asimetrico r x en_r en si), λ q b _ g m. rw (← mismo, some_inj g) m)
        | inr no_ ↦
            let mismo = some_inj (rw no_ at h) in
            (
              rw (← mismo) (irreflexivo x en),
              λ q b en_b g m. rw (← mismo) (e.negativo b r x en_b en_r en (rw (some_inj g) m) no_),
            )
      ]

delante-hay :
    (menor : ℕ → ℕ → Bool) (x : ℕ) (r : List ℕ)
    → (q : ℕ) × (get_elem? (delante menor x r) 0 ≡ some q)
delante-hay menor x [] = (x, refl)
delante-hay menor x (r ∷ rs) = elim (Bool-cases (menor r x)) [
  | inl si ↦ (r, rw si refl)
  | inr no_ ↦ (x, rw no_ refl)
]

pasada-hay :
    (menor : ℕ → ℕ → Bool) (xs : List ℕ) (a i : ℕ)
    → get_elem? xs i ≡ some a
    → (q : ℕ) × (get_elem? (pasada menor xs) 0 ≡ some q)
pasada-hay menor [] a i h = absurd (ground arith)
pasada-hay menor (x ∷ xs) a i h = delante-hay menor x (pasada menor xs)

en_pasada :
    (menor : ℕ → ℕ → Bool) (ys : List ℕ) (x : ℕ) (xs : List ℕ)
    → ((b : ℕ) → 0 < veces b (x ∷ xs) → 0 < veces b ys)
    → (b : ℕ) → 0 < veces b (pasada menor xs)
    → 0 < veces b ys
en_pasada menor ys x xs dentro b en =
    let en' = rw (veces-pasada menor xs b) at en in dentro b (ground arith)

pub pasada-primero :
    (menor : ℕ → ℕ → Bool) (ys xs : List ℕ) (a p i : ℕ)
    → IsEstricto menor ys
    → ((b : ℕ) → 0 < veces b xs → 0 < veces b ys)
    → get_elem? (pasada menor xs) 0 ≡ some p
    → get_elem? xs i ≡ some a
    → menor a p ≡ false
pasada-primero menor ys [] a p i e dentro h h' = absurd (ground arith)
pasada-primero menor ys (x ∷ xs) a p zero e dentro h h' =
    rw (← some_inj h')
      (delante-primero menor ys e x (pasada menor xs) p (dentro x (rw (==_self x) (omega arith)))
        (en_pasada menor ys x xs dentro) h).0
pasada-primero menor ys (x ∷ xs) a p (suc i) e dentro h h' =
    let (q, hay) = pasada-hay menor xs a i h' in
    let resto : (b : ℕ) → 0 < veces b xs → 0 < veces b ys = λ b en. dentro b (ground arith) in
    (delante-primero menor ys e x (pasada menor xs) p (dentro x (rw (==_self x) (omega arith)))
        (en_pasada menor ys x xs dentro) h).1
      q a (resto a (get_elem?-veces xs a i h')) hay
      (pasada-primero menor ys xs a q i e resto hay h')

abbrev pub burbuja : Sort
burbuja = record {
  slice = pasada;
  veces-slice = veces-pasada;
  primero = λ menor xs a p i e. pasada-primero menor xs xs a p i e (λ b en. en);
}

abbrev pub numeros : Estimados
numeros = record {
  Float = ℕ;
  float64 = λ n. n;
  mas = λ a b. a + b;
  menos = λ a b. a - b;
  por = λ a b. a * b;
  menor = ltb;
  alpha = 1;
  initial_estimate = 10;
}
