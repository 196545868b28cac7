-- ===== src/Memoria/Bytes/Escritura.antt =====
-- What a write changes.
use conurban_os.Prelude.{
  ℕ, zero, suc, ◌+◌, ◌-◌, ◌%◌, ◌≤◌, ◌<◌, ◌≡◌, refl, ◌⊎◌, inl, inr, ◌≢◌, List, [], ◌∷◌, Bool, true,
  false, some, arith, get_elem?, set, length, length-set, get_elem?-set_self, get_elem?-set_ne, ltb,
  Bool-cases, ltb→lt, lt→ltb, ◌∙◌,
}
use conurban_os.Memoria.Estado.{Memoria}
use conurban_os.Memoria.Bytes.{escribir_bytes, escribir}

-- The bytes of the range are those of the datum, the others stay.
pub record Escrito (direccion : ℕ) (dato bytes bytes' : List ℕ) : Type 0 where
  pub misma_longitud : length bytes' ≡ length bytes
  pub cabe : (dato ≡ []) ⊎ (direccion + length dato ≤ length bytes)
  pub dentro : (i b : ℕ) → get_elem? dato i ≡ some b → get_elem? bytes' (direccion + i) ≡ some b
  pub fuera :
      (j : ℕ)
      → (j < direccion) ⊎ (direccion + length dato ≤ j)
      → get_elem? bytes' j ≡ get_elem? bytes j

module _ (direccion : ℕ) (d : ℕ) (dato bytes bytes' : List ℕ) where
  Escrito-cons :
      direccion < length bytes
      → Escrito (suc direccion) dato (set bytes direccion d) bytes'
      → Escrito direccion (d ∷ dato) bytes bytes'
  Escrito-cons h w = record {
    misma_longitud = w.misma_longitud ∙ length-set bytes direccion d;
    cabe = inr (largo w.cabe);
    dentro = dentro';
    fuera =
        λ j out. w.fuera j (lejos j out) ∙ get_elem?-set_ne bytes direccion j d (distinto j out);
  }
    where
      largo :
          (dato ≡ []) ⊎ (suc direccion + length dato ≤ length (set bytes direccion d))
          → direccion + length (d ∷ dato) ≤ length bytes
      largo (inl e) = rw e (omega arith)
      largo (inr le) = omega (arith, length-set bytes direccion d)

      dentro' :
          (i b : ℕ) → get_elem? (d ∷ dato) i ≡ some b → get_elem? bytes' (direccion + i) ≡ some b
      dentro' zero b e =
          let here = get_elem?-set_self bytes direccion d h in
          let z : direccion + zero ≡ direccion = omega arith in
          rw z (w.fuera direccion (inl (omega arith)) ∙ here ∙ e)
      dentro' (suc i) b e =
          let z : direccion + suc i ≡ suc direccion + i = omega arith in rw z (w.dentro i b e)

      lejos :
          (j : ℕ)
          → (j < direccion) ⊎ (direccion + length (d ∷ dato) ≤ j)
          → (j < suc direccion) ⊎ (suc direccion + length dato ≤ j)
      lejos j (inl l) = inl (omega arith)
      lejos j (inr r) = inr (omega arith)

      distinto : (j : ℕ) → (j < direccion) ⊎ (direccion + length (d ∷ dato) ≤ j) → direccion ≢ j
      distinto j (inl l) = omega arith
      distinto j (inr r) = omega arith

pub escribir_bytes-Escrito :
    (direccion : ℕ) (dato bytes : List ℕ) {bytes' : List ℕ}
    → escribir_bytes direccion dato bytes ≡ some bytes'
    → Escrito direccion dato bytes bytes'
unfolding escribir_bytes
escribir_bytes-Escrito direccion [] bytes {bytes'} h =
    let same : bytes' ≡ bytes = ground arith in
    rw same
      (record { misma_longitud = refl; cabe = inl refl; dentro = λ i b e. cc; fuera = λ j _. refl })
escribir_bytes-Escrito direccion (d ∷ dato) bytes {bytes'} h =
    elim (Bool-cases (ltb direccion (length bytes))) [
      | inl ok ↦
          Escrito-cons direccion d dato bytes bytes' (ltb→lt _ _ ok)
            (escribir_bytes-Escrito (suc direccion) dato (set bytes direccion d) (ground arith))
      | inr out ↦ absurd (ground arith)
    ]

escribir_falla :
    (direccion : ℕ) (dato : List ℕ) (m : Memoria) {m' : Memoria} {ok : Bool}
    → escribir direccion dato m ≡ some (m', ok)
    → ltb (m.config.page_size - direccion % m.config.page_size) (length dato) ≡ true
    → (ok ≡ false) × (m' ≡ m)
unfolding escribir
escribir_falla direccion dato m h over = ground arith

escribir_entra :
    (direccion : ℕ) (dato : List ℕ) (m : Memoria) {m' : Memoria} {ok : Bool}
    → escribir direccion dato m ≡ some (m', ok)
    → ltb (m.config.page_size - direccion % m.config.page_size) (length dato) ≡ false
    → (ok ≡ true)
      × (m' ≡ record m { bytes = m'.bytes })
      × (escribir_bytes direccion dato m.bytes ≡ some m'.bytes)
unfolding escribir
escribir_entra direccion dato m h fits = ground arith

escribir_divide :
    (direccion : ℕ) (dato : List ℕ) (m : Memoria) {r : Memoria × Bool}
    → escribir direccion dato m ≡ some r
    → 0 < m.config.page_size
unfolding escribir
escribir_divide direccion dato m h = ground arith

-- A write that returns 0 stays within one page: it puts the datum at the address and changes no
-- other byte and nothing else of the state. One that returns -1 changes nothing.
pub escribir_lem :
    (direccion : ℕ) (dato : List ℕ) (m : Memoria) {m' : Memoria} {ok : Bool}
    → escribir direccion dato m ≡ some (m', ok)
    → ((ok ≡ false)
        × (m' ≡ m)
        × (m.config.page_size < direccion % m.config.page_size + length dato))
      ⊎ ((ok ≡ true)
          × (direccion % m.config.page_size + length dato ≤ m.config.page_size)
          × (m' ≡ record m { bytes = m'.bytes })
          × Escrito direccion dato m.bytes m'.bytes)
escribir_lem direccion dato m {m'} h =
    let pos = escribir_divide direccion dato m h in
    elim (Bool-cases (ltb (m.config.page_size - direccion % m.config.page_size) (length dato))) [
      | inl over ↦ let (e, e') = escribir_falla direccion dato m h over in inl (e, e', ground arith)
      | inr fits ↦
          let (e, e', w) = escribir_entra direccion dato m h fits in
          inr (e, ground arith, e', escribir_bytes-Escrito direccion dato m.bytes w)
    ]

-- A write within the memory does not panic.
pub escribir_bytes_total :
    (direccion : ℕ) (dato bytes : List ℕ)
    → direccion + length dato ≤ length bytes
    → (bytes' : List ℕ) × (escribir_bytes direccion dato bytes ≡ some bytes')
unfolding escribir_bytes
escribir_bytes_total direccion [] bytes h = (bytes, refl)
escribir_bytes_total direccion (d ∷ dato) bytes h =
    let (bytes', ok) =
      escribir_bytes_total (suc direccion) dato (set bytes direccion d)
        (omega (arith, length-set bytes direccion d)) in
    (bytes', rw (lt→ltb direccion (length bytes) (omega arith)) ok)
