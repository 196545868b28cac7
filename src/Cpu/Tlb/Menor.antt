-- ===== src/Cpu/Tlb/Menor.antt =====
-- The entry that LRU gives up.
use conurban_os.Prelude.{
  ℕ, zero, suc, ◌+◌, ◌≤◌, ◌<◌, ◌≡◌, refl, ◌⊎◌, inl, inr, List, [], ◌∷◌, some, arith, get_elem?, ltb,
  ltb→lt, ltb-false-le, Bool-cases, some_inj, sym, ◌∙◌,
}
use conurban_os.Cpu.Tlb.{TlbEntry, menor_timestamp, victima_lru}

-- No entry of the list is older than the timestamp.
abbrev Minimo : ℕ → List TlbEntry → Type 0
Minimo m es = (j : ℕ) → (e : TlbEntry) → get_elem? es j ≡ some e → m ≤ e.timestamp

-- The loop keeps its candidate, or ends on an older entry of the list.
abbrev Elige : ℕ → List TlbEntry → ℕ → ℕ → ℕ → Type 0
Elige i es minimo victima r =
    ((r ≡ victima) × Minimo minimo es)
    ⊎ ((j : ℕ) × (e : TlbEntry) × (r ≡ i + j)
        × (get_elem? es j ≡ some e)
        × (e.timestamp < minimo)
        × Minimo e.timestamp es)

Minimo-cons :
    (m : ℕ) (x : TlbEntry) (es : List TlbEntry) → m ≤ x.timestamp → Minimo m es → Minimo m (x ∷ es)
Minimo-cons m x es le h zero e at = rw (← some_inj at) le
Minimo-cons m x es le h (suc j) e at = h j e at

Minimo-mono : (m n : ℕ) (es : List TlbEntry) → m ≤ n → Minimo n es → Minimo m es
Minimo-mono m n es le h j e at = omega (arith, h j e at)

elige :
    (i : ℕ) (es : List TlbEntry) (minimo victima : ℕ)
    → Elige i es minimo victima (menor_timestamp i es (minimo, victima))
unfolding menor_timestamp
elige i [] minimo victima = inl (refl, λ j e at. absurd ground arith)
elige i (x ∷ es) minimo victima = elim (Bool-cases (ltb x.timestamp minimo)) [
  | inl c ↦ rw c (elim (elige (suc i) es x.timestamp i) [
    | inl (same, least) ↦
        inr (0, x, same ∙ omega arith, refl, ltb→lt _ _ c, Minimo-cons _ x es (omega arith) least)
    | inr (j, e, at, is_e, lt, least) ↦ inr (
      suc j,
      e,
      at ∙ omega arith,
      is_e,
      omega (arith, ltb→lt _ _ c),
      Minimo-cons _ x es (omega arith) least,
    )
  ])
  | inr c ↦ rw c (elim (elige (suc i) es minimo victima) [
    | inl (same, least) ↦ inl (same, Minimo-cons _ x es (ltb-false-le _ _ c) least)
    | inr (j, e, at, is_e, lt, least) ↦ inr (
      suc j,
      e,
      at ∙ omega arith,
      is_e,
      lt,
      Minimo-cons _ x es (omega (arith, ltb-false-le _ _ c)) least,
    )
  ])
]

-- Under LRU the victim is an entry of the TLB, and no entry has an older timestamp.
pub victima_lru-least :
    (es : List TlbEntry) (v : ℕ)
    → victima_lru es ≡ some v
    → (m : TlbEntry) × (get_elem? es v ≡ some m)
      × ((j : ℕ) → (e : TlbEntry) → get_elem? es j ≡ some e → m.timestamp ≤ e.timestamp)
unfolding victima_lru
victima_lru-least [] v h = absurd ground arith
victima_lru-least (x ∷ es) v h = elim (elige 1 es x.timestamp 0) [
  | inl (same, least) ↦
      let z : v ≡ 0 = sym (some_inj h) ∙ same in
      rw z (x, refl, Minimo-cons _ x es (omega arith) least)
  | inr (j, e, at, is_e, lt, least) ↦
      let z : v ≡ suc j = sym (some_inj h) ∙ at ∙ omega arith in
      rw z (e, is_e, Minimo-cons _ x es (omega arith) least)
]
