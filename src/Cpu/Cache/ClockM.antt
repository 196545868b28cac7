-- ===== src/Cpu/Cache/ClockM.antt =====
-- CLOCK-M ends: its first call of itself finds a victim.
use conurban_os.Prelude.{
  ℕ, zero, suc, ◌+◌, ◌-◌, ◌%◌, ◌<◌, ◌≡◌, refl, ◌⊎◌, inl, inr, true, false, ◌&&◌, not, Option, none,
  some, arith, get_elem?, get_elem?_in, get_elem?-set_self, get_elem?-set_ne, get_elem?_lt, set,
  length, length-set, ◌∙◌, ap, Bool-cases, ℕ_discrete,
}
use conurban_os.Cpu.Cache.{
  CacheEntry, Cache, con_r, apuntar, primera_pasada, segunda_pasada, buscar_victima_clockm,
}

-- The first pass ends, and what it finds is an index of the cache.
primera_lem :
    (k i : ℕ) (c : Cache)
    → 0 < length c.entries
    → (primera_pasada k i c ≡ some none)
      ⊎ ((v : ℕ) × (primera_pasada k i c ≡ some (some v)) × (v < length c.entries))
unfolding primera_pasada
primera_lem zero i c pos = inl refl
primera_lem (suc k) i c pos =
    let lt : (c.clock_hand + i) % length c.entries < length c.entries = grind arith in
    let (e, at) = get_elem?_in c.entries ((c.clock_hand + i) % length c.entries) lt in
    elim (Bool-cases (not e.r && not e.d)) [
      | inl hit ↦ inr ((c.clock_hand + i) % length c.entries, rw (primera_pasada, at, hit) refl, lt)
      | inr miss ↦ elim (primera_lem k (suc i) c pos) [
        | inl nada ↦ inl (rw (primera_pasada, at, miss) nada)
        | inr (v, hay, v_lt) ↦ inr (v, rw (primera_pasada, at, miss) hay, v_lt)
      ]
    ]

-- An entry that is not referenced.
abbrev Libre : ℕ → Cache → Type 0
Libre h c = (e : CacheEntry) × (get_elem? c.entries h ≡ some e) × (e.r ≡ false)

abbrev soltar : ℕ → CacheEntry → Cache → Cache
soltar idx e c = record c { entries = set c.entries idx (con_r false e) }

Libre-soltar : (h idx : ℕ) (e : CacheEntry) (c : Cache) → Libre h c → Libre h (soltar idx e c)
Libre-soltar h idx e c (x, at, r_no) = elim (ℕ_discrete idx h) [
  | yes same ↦ (
    con_r false e,
    rw same (get_elem?-set_self c.entries h (con_r false e) (get_elem?_lt c.entries h x at)),
    refl,
  )
  | no other ↦ (x, get_elem?-set_ne c.entries idx h (con_r false e) other ∙ at, r_no)
]

recien_suelta :
    (h idx : ℕ) (e : CacheEntry) (c : Cache)
    → idx ≡ h
    → idx < length c.entries
    → Libre h (soltar idx e c)
recien_suelta h idx e c here lt =
    (con_r false e, rw (← here) (get_elem?-set_self c.entries idx (con_r false e) lt), refl)

-- The second pass ends: it finds an index of the cache, or it keeps the hand and the size, and
-- what was not referenced before.
abbrev Pasada : ℕ → Cache → Option (Cache × Option ℕ) → Type 0
Pasada h c r =
    ((c' : Cache) × (v : ℕ) × (r ≡ some (c', some v)) × (v < length c'.entries))
    ⊎ ((c' : Cache) × (r ≡ some (c', none))
        × (c'.clock_hand ≡ c.clock_hand)
        × (length c'.entries ≡ length c.entries)
        × (Libre h c → Libre h c'))

segunda_sigue :
    (k i : ℕ) (e : CacheEntry) (c : Cache)
    → get_elem? c.entries ((c.clock_hand + i) % length c.entries) ≡ some e
    → (not e.r && e.d) ≡ false
    → segunda_pasada (suc k) i c
      ≡ segunda_pasada k (suc i) (soltar ((c.clock_hand + i) % length c.entries) e c)
unfolding segunda_pasada
segunda_sigue k i e c at miss = rw (segunda_pasada, at, miss) refl

segunda_halla :
    (k i : ℕ) (e : CacheEntry) (c : Cache)
    → get_elem? c.entries ((c.clock_hand + i) % length c.entries) ≡ some e
    → (not e.r && e.d) ≡ true
    → segunda_pasada (suc k) i c ≡ some (c, some ((c.clock_hand + i) % length c.entries))
unfolding segunda_pasada
segunda_halla k i e c at hit = rw (segunda_pasada, at, hit) refl

segunda_lem : (h k i : ℕ) (c : Cache) → 0 < length c.entries → Pasada h c (segunda_pasada k i c)
unfolding segunda_pasada
segunda_lem h zero i c pos = inr (c, refl, refl, refl, λ l. l)
segunda_lem h (suc k) i c pos =
    let idx = (c.clock_hand + i) % length c.entries in
    let lt : idx < length c.entries = grind arith in
    let (e, at) = get_elem?_in c.entries idx lt in
    let same = length-set c.entries idx (con_r false e) in
    elim (Bool-cases (not e.r && e.d)) [
      | inl hit ↦ inl (c, idx, segunda_halla k i e c at hit, lt)
      | inr miss ↦ elim (segunda_lem h k (suc i) (soltar idx e c) (omega (arith, same))) [
        | inl (c', v, ok, v_lt) ↦ inl (c', v, segunda_sigue k i e c at miss ∙ ok, v_lt)
        | inr (c', ok, mano, largo, libre) ↦ inr (
          c',
          segunda_sigue k i e c at miss ∙ ok,
          mano,
          largo ∙ same,
          λ l. libre (Libre-soltar h idx e c l),
        )
      ]
    ]

-- At the entry of the hand, both passes begin there.
al_principio :
    (c : Cache) (e : CacheEntry)
    → c.clock_hand < length c.entries
    → get_elem? c.entries c.clock_hand ≡ some e
    → get_elem? c.entries ((c.clock_hand + 0) % length c.entries) ≡ some e
al_principio c e lt at =
    let z : (c.clock_hand + 0) % length c.entries ≡ c.clock_hand = grind arith in rw z at

-- With an entry of the hand that is not referenced one round finds a victim.
abbrev Halla : Cache → Option (Cache × ℕ) → Type 0
Halla c r = (c' : Cache) × (v : ℕ) × (r ≡ some (c', v)) × (v < length c'.entries)

primera_halla :
    (k : ℕ) (e : CacheEntry) (c : Cache)
    → get_elem? c.entries ((c.clock_hand + 0) % length c.entries) ≡ some e
    → (not e.r && not e.d) ≡ true
    → primera_pasada (suc k) 0 c ≡ some (some ((c.clock_hand + 0) % length c.entries))
unfolding primera_pasada
primera_halla k e c at hit = rw (primera_pasada, at, hit) refl

por_primera :
    (k v : ℕ) (c : Cache)
    → primera_pasada (length c.entries) 0 c ≡ some (some v)
    → buscar_victima_clockm (suc k) c ≡ some (apuntar v c, v)
unfolding buscar_victima_clockm
por_primera k v c hay = rw (buscar_victima_clockm, hay) refl

por_segunda :
    (k v : ℕ) (c c' : Cache)
    → primera_pasada (length c.entries) 0 c ≡ some none
    → segunda_pasada (length c.entries) 0 c ≡ some (c', some v)
    → buscar_victima_clockm (suc k) c ≡ some (apuntar v c', v)
unfolding buscar_victima_clockm
por_segunda k v c c' nada hay = rw (buscar_victima_clockm, nada, hay) refl

otra_vez :
    (k : ℕ) (c c' : Cache)
    → primera_pasada (length c.entries) 0 c ≡ some none
    → segunda_pasada (length c.entries) 0 c ≡ some (c', none)
    → buscar_victima_clockm (suc k) c ≡ buscar_victima_clockm k c'
unfolding buscar_victima_clockm
otra_vez k c c' nada hay = rw (buscar_victima_clockm, nada, hay) refl

una_vuelta :
    (k n : ℕ) (c : Cache)
    → length c.entries ≡ suc n
    → c.clock_hand < length c.entries
    → Libre c.clock_hand c
    → Halla c (buscar_victima_clockm (suc k) c)
una_vuelta k n c largo lt (e, at, r_no) = elim (primera_lem (length c.entries) 0 c (omega arith)) [
  | inr (v, hay, v_lt) ↦ (apuntar v c, v, por_primera k v c hay, v_lt)
  | inl nada ↦
      let at0 = al_principio c e lt at in
      let nada' : primera_pasada (suc n) 0 c ≡ some none = rw largo at nada in
      elim (Bool-cases e.d) [
        | inr d_no ↦
            let hay = primera_halla n e c at0 (rw (r_no, d_no) refl) in
            absurd (ground (arith, nada', hay))
        | inl d_si ↦
            let idx = (c.clock_hand + 0) % length c.entries in
            let hay = segunda_halla n 0 e c at0 (rw (r_no, d_si) refl) in
            (
              apuntar idx c,
              idx,
              por_segunda k idx c c nada (ap (λ q. segunda_pasada q 0 c) largo ∙ hay),
              grind arith,
            )
      ]
]

-- A second pass over all the entries: it finds an index of the cache, or it leaves the entry of
-- the hand without its reference.
abbrev Completa : Cache → Option (Cache × Option ℕ) → Type 0
Completa c r =
    ((c' : Cache) × (v : ℕ) × (r ≡ some (c', some v)) × (v < length c'.entries))
    ⊎ ((c' : Cache) × (r ≡ some (c', none))
        × (length c'.entries ≡ length c.entries)
        × (c'.clock_hand ≡ c.clock_hand)
        × Libre c'.clock_hand c')

completa :
    (n : ℕ) (c : Cache)
    → length c.entries ≡ suc n
    → c.clock_hand < length c.entries
    → Completa c (segunda_pasada (suc n) 0 c)
completa n c largo lt =
    let idx = (c.clock_hand + 0) % length c.entries in
    let (e, at) = get_elem?_in c.entries c.clock_hand lt in
    let at0 = al_principio c e lt at in
    let here : idx ≡ c.clock_hand = grind arith in
    let same = length-set c.entries idx (con_r false e) in
    elim (Bool-cases (not e.r && e.d)) [
      | inl hit ↦ inl (c, idx, segunda_halla n 0 e c at0 hit, grind arith)
      | inr miss ↦
          let suelta : Libre c.clock_hand (soltar idx e c) =
            recien_suelta c.clock_hand idx e c here (grind arith) in
          elim (segunda_lem c.clock_hand n 1 (soltar idx e c) (omega (arith, same, largo))) [
            | inl (c', v, ok, v_lt) ↦ inl (c', v, segunda_sigue n 0 e c at0 miss ∙ ok, v_lt)
            | inr (c', ok, mano, largo', libre) ↦ inr (
              c',
              segunda_sigue n 0 e c at0 miss ∙ ok,
              largo' ∙ same,
              mano,
              rw mano (libre suelta),
            )
          ]
    ]

-- With a hand inside the cache, CLOCK-M finds a victim among the entries, and calls itself once at
-- most.
pub buscar_victima_clockm-Halla :
    (c : Cache)
    → c.clock_hand < length c.entries
    → (c' : Cache) × (v : ℕ) × (buscar_victima_clockm 2 c ≡ some (c', v)) × (v < length c'.entries)
buscar_victima_clockm-Halla c lt =
    let n = length c.entries - 1 in
    let largo : length c.entries ≡ suc n = omega arith in
    elim (primera_lem (length c.entries) 0 c (omega arith)) [
      | inr (v, hay, v_lt) ↦ (apuntar v c, v, por_primera 1 v c hay, v_lt)
      | inl nada ↦ elim (completa n c largo lt) [
        | inl (c', v, ok, v_lt) ↦ (
          apuntar v c',
          v,
          por_segunda 1 v c c' nada (ap (λ q. segunda_pasada q 0 c) largo ∙ ok),
          v_lt,
        )
        | inr (c', ok, largo', mano, libre) ↦
            let (c'', v, fin, v_lt) =
              una_vuelta 0 n c' (largo' ∙ largo) (omega (arith, mano, largo')) libre in
            (c'', v, otra_vez 1 c c' nada (ap (λ q. segunda_pasada q 0 c) largo ∙ ok) ∙ fin, v_lt)
      ]
    ]
