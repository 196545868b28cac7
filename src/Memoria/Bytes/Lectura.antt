-- ===== src/Memoria/Bytes/Lectura.antt =====
-- What a read returns.
use conurban_os.Prelude.{
  ℕ, zero, suc, ◌+◌, ◌≤◌, ◌<◌, ◌≡◌, refl, ◌⊎◌, inl, inr, List, [], ◌∷◌, ◌++◌, true, some, arith,
  get_elem?, length, length-append, Option-cases, ap, dec_lt,
}
use conurban_os.Memoria.Estado.{Memoria}
use conurban_os.Memoria.Bytes.{leer, string_de_byte, escribir}
use conurban_os.Memoria.Bytes.Escritura.{escribir_lem}

abbrev pub IsAscii : List ℕ → Type 0
IsAscii [] = Unit {0}
IsAscii (b ∷ bs) = (b < 128) × IsAscii bs

leer_igual :
    (dato : List ℕ) (direccion : ℕ) (bytes : List ℕ)
    → IsAscii dato
    → ((i b : ℕ) → get_elem? dato i ≡ some b → get_elem? bytes (direccion + i) ≡ some b)
    → leer direccion (length dato) bytes ≡ some dato
unfolding leer
leer_igual [] direccion bytes ascii same = refl
leer_igual (d ∷ dato) direccion bytes ascii same =
    let z : direccion + 0 ≡ direccion = omega arith in
    let here : get_elem? bytes direccion ≡ some d = rw z at (same 0 d refl) in
    rw
      (
        here,
        leer_igual dato (suc direccion) bytes ascii.1 (λ i b e.
            let s : suc direccion + i ≡ direccion + suc i = omega arith in rw s (same (suc i) b e)),
      )
      (ground arith)

-- After a write of ASCII bytes that returns 0, a read of as many bytes at its address gives them.
pub leer-escribir :
    (direccion : ℕ) (dato : List ℕ) (m : Memoria) {m' : Memoria}
    → IsAscii dato
    → escribir direccion dato m ≡ some (m', true)
    → leer direccion (length dato) m'.bytes ≡ some dato
leer-escribir direccion dato m {m'} ascii h = elim (escribir_lem direccion dato m h) [
  | inl (e, _, _) ↦ cc
  | inr (_, _, _, w) ↦ leer_igual dato direccion m'.bytes ascii w.dentro
]

-- The bytes that a read returns for each byte.
ancho :
    (b : ℕ)
    → (length (string_de_byte b) ≡ 1) × (b < 128) ⊎ (length (string_de_byte b) ≡ 2) × (128 ≤ b)
unfolding string_de_byte
ancho b = elim (dec_lt b 128) [ yes p ↦ inl (ground arith) | no p ↦ inr (ground arith) ]

leer_paso :
    (direccion tamanio : ℕ) (bytes leido : List ℕ)
    → leer direccion (suc tamanio) bytes ≡ some leido
    → (b : ℕ) × (resto : List ℕ) × (get_elem? bytes direccion ≡ some b)
      × (leer (suc direccion) tamanio bytes ≡ some resto)
      × (leido ≡ string_de_byte b ++ resto)
unfolding leer
leer_paso direccion tamanio bytes leido h = elim (Option-cases (get_elem? bytes direccion)) [
  | inl e ↦ absurd (ground arith)
  | inr (b, e) ↦ elim (Option-cases (leer (suc direccion) tamanio bytes)) [
    | inl e' ↦ absurd (ground arith)
    | inr (resto, e') ↦ (b, resto, e, e', ground arith)
  ]
]

leer-length-le :
    (tamanio direccion : ℕ) (bytes leido : List ℕ)
    → leer direccion tamanio bytes ≡ some leido
    → tamanio ≤ length leido
leer-length-le zero direccion bytes leido h = omega arith
leer-length-le (suc tamanio) direccion bytes leido h =
    let (b, resto, e, e', eq) = leer_paso direccion tamanio bytes leido h in
    omega (
      arith,
      ap length eq,
      length-append (string_de_byte b) resto,
      ancho b,
      leer-length-le tamanio (suc direccion) bytes resto e',
    )

-- A read that returns, over a range with a byte of 128 or more, gives more bytes than it was
-- asked for.
pub leer-length-lt :
    (tamanio direccion j b : ℕ) (bytes leido : List ℕ)
    → leer direccion tamanio bytes ≡ some leido
    → direccion ≤ j
    → j < direccion + tamanio
    → get_elem? bytes j ≡ some b
    → 128 ≤ b
    → tamanio < length leido
leer-length-lt zero direccion j b bytes leido h le lt at_j high = absurd (omega arith)
leer-length-lt (suc tamanio) direccion j b bytes leido h le lt at_j high =
    let (b', resto, e, e', eq) = leer_paso direccion tamanio bytes leido h in
    let total = ap length eq in
    let parts = length-append (string_de_byte b') resto in
    let rest_le = leer-length-le tamanio (suc direccion) bytes resto e' in
    elim (dec_lt direccion j) [
      | yes later ↦ omega (
        arith,
        total,
        parts,
        ancho b',
        leer-length-lt tamanio (suc direccion) j b bytes resto e' (omega arith) (omega arith) at_j
            high,
      )
      | no here ↦
          let same : j ≡ direccion = omega arith in
          let b_eq : b ≡ b' = ground arith in omega (arith, total, parts, rest_le, ancho b')
    ]
