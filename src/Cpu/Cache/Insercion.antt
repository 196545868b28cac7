-- ===== src/Cpu/Cache/Insercion.antt =====
-- An insertion into the cache is found.
use conurban_os.Prelude.{
  append_ultimo, ℕ, ◌+◌, ◌%◌, ◌<◌, ◌≡◌, refl, ◌⊎◌, inl, inr, [], ◌∷◌, ◌++◌, Bool, true, false,
  Option, none, some, arith, get_elem?, get_elem?_in, get_elem?_lt, get_elem?-set_self, set, length,
  ltb, lt→ltb, if◌then◌else◌, ==_self, Bool-cases, Option-cases, poner, borrar, poner_self,
}
use conurban_os.Cpu.Cache.{
  AlgoritmoCache, clock, clock_m, desconocido, CacheEntry, Cache, con_r, buscar_victima,
  insertar_o_reemplazar_en_cache, buscar_pagina_en_cache,
}
use conurban_os.Cpu.Cache.Clock.{buscar_victima_clock-Hallada}
use conurban_os.Cpu.Cache.ClockM.{buscar_victima_clockm-Halla}

-- The algorithms that the source supports.
abbrev pub Soportado : AlgoritmoCache → Type 0
Soportado desconocido = ⊥
Soportado _ = Unit {0}

victima_hallada :
    (a : AlgoritmoCache) (c : Cache)
    → Soportado a
    → c.clock_hand < length c.entries
    → (c1 : Cache) × (v : ℕ) × (buscar_victima a c ≡ some (c1, v)) × (v < length c1.entries)
unfolding buscar_victima
victima_hallada clock c s lt =
    let (c1, v, ok, h) = buscar_victima_clock-Hallada c lt in
    let (e, at, _) = h.victima in (c1, v, ok, get_elem?_lt c1.entries v e at)
victima_hallada clock_m c s lt = buscar_victima_clockm-Halla c lt
victima_hallada desconocido c s lt = absurd s

-- The cache has the entry under its page, whatever its bit of reference.
abbrev pub Tiene : CacheEntry → Cache → Type 0
Tiene nueva c =
    (i : ℕ) × (b : Bool) × (c.pagina_index nueva.pagina ≡ some i)
    × (get_elem? c.entries i ≡ some (con_r b nueva))

-- The three ways of an insertion.
actualiza :
    (nueva : CacheEntry) (c : Cache) (i : ℕ)
    → c.pagina_index nueva.pagina ≡ some i
    → i < length c.entries
    → (c' : Cache) × (out : Option CacheEntry) × (insertar_o_reemplazar_en_cache nueva c
        ≡ some (c', out))
      × Tiene nueva c'
unfolding insertar_o_reemplazar_en_cache
actualiza nueva c i idx lt = (
  record c { entries = set c.entries i (con_r true nueva) },
  none,
  rw (insertar_o_reemplazar_en_cache, idx, lt→ltb _ _ lt) refl,
  (i, true, idx, get_elem?-set_self c.entries i (con_r true nueva) lt),
)

agrega :
    (nueva : CacheEntry) (c : Cache)
    → c.pagina_index nueva.pagina ≡ none
    → ltb (length c.entries) c.capacidad ≡ true
    → (c' : Cache) × (out : Option CacheEntry) × (insertar_o_reemplazar_en_cache nueva c
        ≡ some (c', out))
      × Tiene nueva c'
unfolding insertar_o_reemplazar_en_cache
agrega nueva c no_esta hay_lugar = (
  record c {
    entries = c.entries ++ nueva ∷ [];
    pagina_index = poner c.pagina_index nueva.pagina (length c.entries);
  },
  none,
  rw (insertar_o_reemplazar_en_cache, no_esta, hay_lugar) refl,
  (
    length c.entries,
    nueva.r,
    poner_self c.pagina_index nueva.pagina (length c.entries),
    append_ultimo c.entries nueva,
  ),
)

reemplaza :
    (nueva : CacheEntry) (c : Cache)
    → c.pagina_index nueva.pagina ≡ none
    → ltb (length c.entries) c.capacidad ≡ false
    → Soportado c.algoritmo_reemplazo
    → c.clock_hand < length c.entries
    → (c' : Cache) × (out : Option CacheEntry) × (insertar_o_reemplazar_en_cache nueva c
        ≡ some (c', out))
      × Tiene nueva c'
unfolding insertar_o_reemplazar_en_cache
reemplaza nueva c no_esta llena s lt =
    let (c1, v, ok, v_lt) = victima_hallada c.algoritmo_reemplazo c s lt in
    let (e, at) = get_elem?_in c1.entries v v_lt in
    (
      record c1 {
        entries = set c1.entries v nueva;
        pagina_index = poner (borrar c1.pagina_index e.pagina) nueva.pagina v;
        clock_hand = (v + 1) % length c1.entries;
      },
      if e.d then some e else none,
      rw (insertar_o_reemplazar_en_cache, no_esta, llena, ok, at) refl,
      (
        v,
        nueva.r,
        poner_self (borrar c1.pagina_index e.pagina) nueva.pagina v,
        get_elem?-set_self c1.entries v nueva v_lt,
      ),
    )

busca :
    (nueva : CacheEntry) (c : Cache)
    → Tiene nueva c
    → (c' : Cache) × (i : ℕ) × (buscar_pagina_en_cache nueva.pagina nueva.pid c ≡ some (c', some i))
      × (get_elem? c'.entries i ≡ some (con_r true nueva))
unfolding buscar_pagina_en_cache
busca nueva c (i, b, idx, at) = (
  record c { entries = set c.entries i (con_r true nueva) },
  i,
  rw (buscar_pagina_en_cache, idx, at, ==_self nueva.pid) refl,
  get_elem?-set_self c.entries i (con_r true nueva) (get_elem?_lt c.entries i (con_r b nueva) at),
)

-- Under CLOCK and CLOCK-M, where the cache has room or its hand is inside it, and the index of the
-- page, if there is one, is inside it too, an insertion succeeds, and the next lookup of its page
-- and process hits it: the entry that was inserted, referenced.
pub buscar-insertar :
    (nueva : CacheEntry) (c : Cache)
    → Soportado c.algoritmo_reemplazo
    → (length c.entries < c.capacidad) ⊎ (c.clock_hand < length c.entries)
    → ((i : ℕ) → c.pagina_index nueva.pagina ≡ some i → i < length c.entries)
    → (c' : Cache) × (out : Option CacheEntry) × (c'' : Cache) × (i : ℕ)
      × (insertar_o_reemplazar_en_cache nueva c ≡ some (c', out))
      × (buscar_pagina_en_cache nueva.pagina nueva.pid c' ≡ some (c'', some i))
      × (get_elem? c''.entries i ≡ some (con_r true nueva))
buscar-insertar nueva c s lugar en_rango =
    let (c', out, ok, tiene) = insertada in
    let (c'', i, hit, at) = busca nueva c' tiene in (c', out, c'', i, ok, hit, at)
  where
    insertada :
        (c' : Cache) × (out : Option CacheEntry) × (insertar_o_reemplazar_en_cache nueva c
          ≡ some (c', out))
        × Tiene nueva c'
    insertada = elim (Option-cases (c.pagina_index nueva.pagina)) [
      | inr (i, idx) ↦ actualiza nueva c i idx (en_rango i idx)
      | inl no_esta ↦ elim (Bool-cases (ltb (length c.entries) c.capacidad)) [
        | inl hay_lugar ↦ agrega nueva c no_esta hay_lugar
        | inr llena ↦ elim lugar [
          | inl hay ↦ absurd (ground (arith, llena, lt→ltb (length c.entries) c.capacidad hay))
          | inr lt ↦ reemplaza nueva c no_esta llena s lt
        ]
      ]
    ]
