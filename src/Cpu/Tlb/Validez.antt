-- ===== src/Cpu/Tlb/Validez.antt =====
-- The invariant of the TLB, kept by every load.
use conurban_os.Prelude.{
  append_antes, append_ultimo, ℕ, suc, ◌+◌, ◌≤◌, ◌<◌, ◌≡◌, refl, ◌⊎◌, inl, inr, ◌≢◌, List, [], ◌∷◌,
  ◌++◌, Bool, true, false, Option, some, arith, get_elem?, get_elem?_lt, get_elem?_in, set, length,
  length-append, length-set, get_elem?-set_self, get_elem?-set_ne, ltb, ltb→lt, Bool-cases, poner,
  borrar, poner_self, poner_ne, ◌∙◌, some_inj, sym, Mapa, lt→ltb, ltb-false-le,
}
use native.Mathlib.Decide.{ℕ_discrete}
use conurban_os.Cpu.Tlb.{
  Algoritmo, fifo, lru, otro, TlbEntry, Tlb, indice_victima, menor_timestamp, victima_lru,
  reemplazar_en_tlb, cargar_tlb, entrada_nueva, avanzar,
}

-- The map names, for a page, an entry of that page; nothing overflows.
pub record IsValid (t : Tlb) : Type 0 where
  pub indice :
      (p i : ℕ)
      → t.pagina_index p ≡ some i
      → (e : TlbEntry) × (get_elem? t.entries i ≡ some e) × (e.pagina ≡ p)
  pub con_lugar : length t.entries ≤ t.capacidad
  pub puntero : t.fifo_index < t.capacidad

-- The algorithms that the source knows.
abbrev pub Conocido : Algoritmo → Type 0
Conocido otro = ⊥
Conocido _ = Unit {0}

menor-lt :
    (i : ℕ) (es : List TlbEntry) (minimo victima : ℕ)
    → victima < i
    → menor_timestamp i es (minimo, victima) < i + length es
unfolding menor_timestamp
menor-lt i [] minimo victima h = omega arith
menor-lt i (e ∷ es) minimo victima h = elim (Bool-cases (ltb e.timestamp minimo)) [
  | inl c ↦ rw c (omega (arith, menor-lt (suc i) es e.timestamp i (omega arith)))
  | inr c ↦ rw c (omega (arith, menor-lt (suc i) es minimo victima (omega arith)))
]

lru_en :
    (es : List TlbEntry) → 0 < length es → (v : ℕ) × (victima_lru es ≡ some v) × (v < length es)
unfolding victima_lru
lru_en [] pos = absurd (omega arith)
lru_en (x ∷ es) pos = (_, refl, omega (arith, menor-lt 1 es x.timestamp 0 (omega arith)))

-- A full TLB has a victim.
pub victima_en :
    (a : Algoritmo) (t : Tlb)
    → Conocido a
    → IsValid t
    → length t.entries ≡ t.capacidad
    → (v : ℕ) × (indice_victima a t ≡ some v) × (v < length t.entries)
unfolding indice_victima
victima_en fifo t known h full = (t.fifo_index, refl, omega (arith, h.puntero))
victima_en lru t known h full = lru_en t.entries (omega (arith, h.puntero))
victima_en otro t known h full = absurd known

avanzar-lt : (a : Algoritmo) (t : Tlb) → IsValid t → avanzar a t < t.capacidad
unfolding avanzar
avanzar-lt fifo t h = let l = h.puntero in grind arith
avanzar-lt lru t h = h.puntero
avanzar-lt otro t h = h.puntero

-- A load into a TLB that has room.
unfoldable pub agregar : TlbEntry → Tlb → Tlb
agregar nueva t = record t {
  entries = t.entries ++ nueva ∷ [];
  pagina_index = poner t.pagina_index nueva.pagina (length t.entries);
}

pub agregar-IsValid :
    (nueva : TlbEntry) (t : Tlb)
    → IsValid t
    → length t.entries < t.capacidad
    → IsValid (agregar nueva t)
unfolding agregar
agregar-IsValid nueva t h room = record {
  indice = λ p i e. elim (ℕ_discrete nueva.pagina p) [
    | yes same ↦
        let last : length t.entries ≡ i =
          some_inj (sym (poner_self t.pagina_index p (length t.entries)) ∙ rw same at e) in
        (nueva, rw (← last) (append_ultimo t.entries nueva), same)
    | no other ↦
        let old = sym (poner_ne t.pagina_index nueva.pagina (length t.entries) p other) ∙ e in
        let (x, at_i, is_p) = h.indice p i old in
        (x, append_antes t.entries (nueva ∷ []) i x at_i, is_p)
  ];
  con_lugar = omega (arith, length-append t.entries (nueva ∷ []));
  puntero = h.puntero;
}

-- A load into a full TLB, over the entry of the victim.
unfoldable pub reemplazada : TlbEntry → TlbEntry → ℕ → Tlb → Tlb
reemplazada nueva vieja v t = record t {
  entries = set t.entries v nueva;
  pagina_index = poner (borrar t.pagina_index vieja.pagina) nueva.pagina v;
  fifo_index = avanzar t.algoritmo_reemplazo t;
}

borrar-some : (m : Mapa ℕ) (k j i : ℕ) → borrar m k j ≡ some i → (k ≢ j) × (m j ≡ some i)
unfolding borrar
borrar-some m k j i h = ground arith

mismo_lugar :
    (es : List TlbEntry) (v i : ℕ) (a b : TlbEntry)
    → get_elem? es v ≡ some a
    → get_elem? es i ≡ some b
    → v ≡ i
    → a.pagina ≡ b.pagina
mismo_lugar es v i a b h k e = let k' : get_elem? es v ≡ some b = rw e k in ground arith

pub reemplazada-IsValid :
    (nueva vieja : TlbEntry) (v : ℕ) (t : Tlb)
    → IsValid t
    → get_elem? t.entries v ≡ some vieja
    → IsValid (reemplazada nueva vieja v t)
unfolding reemplazada
reemplazada-IsValid nueva vieja v t h at_v = record {
  indice = λ p i e. elim (ℕ_discrete nueva.pagina p) [
    | yes same ↦
        let here : v ≡ i =
          some_inj (sym (poner_self (borrar t.pagina_index vieja.pagina) p v) ∙ rw same at e) in
        (
          nueva,
          rw (← here) (get_elem?-set_self t.entries v nueva (get_elem?_lt t.entries v vieja at_v)),
          same,
        )
    | no other ↦
        let (not_vieja, old) =
          borrar-some t.pagina_index vieja.pagina p i
            (sym (poner_ne (borrar t.pagina_index vieja.pagina) nueva.pagina v p other) ∙ e) in
        let (x, at_i, is_p) = h.indice p i old in
        (
          x,
          get_elem?-set_ne t.entries v i nueva
                (λ c. not_vieja (mismo_lugar t.entries v i vieja x at_v at_i c ∙ is_p))
              ∙ at_i,
          is_p,
        )
  ];
  con_lugar = omega (arith, length-set t.entries v nueva, h.con_lugar);
  puntero = avanzar-lt t.algoritmo_reemplazo t h;
}

abbrev pub Carga : TlbEntry → Tlb → Option (Tlb × Bool) → Type 0
Carga nueva t r =
    ((length t.entries < t.capacidad) × (r ≡ some (agregar nueva t, true)))
    ⊎ ((v : ℕ) × (vieja : TlbEntry) × (indice_victima t.algoritmo_reemplazo t ≡ some v)
        × (get_elem? t.entries v ≡ some vieja)
        × (r ≡ some (reemplazada nueva vieja v t, true)))

cargar_llena :
    (pv marco pid ahora v : ℕ) (vieja : TlbEntry) (t : Tlb)
    → ltb (length t.entries) t.capacidad ≡ false
    → indice_victima t.algoritmo_reemplazo t ≡ some v
    → get_elem? t.entries v ≡ some vieja
    → cargar_tlb pv marco pid ahora t
      ≡ some (reemplazada (entrada_nueva pv marco pid ahora) vieja v t, true)
unfolding cargar_tlb reemplazar_en_tlb reemplazada
cargar_llena pv marco pid ahora v vieja t full victim at_v = rw (full, victim, at_v) refl

cargar_con_lugar :
    (pv marco pid ahora : ℕ) (t : Tlb)
    → ltb (length t.entries) t.capacidad ≡ true
    → cargar_tlb pv marco pid ahora t ≡ some (agregar (entrada_nueva pv marco pid ahora) t, true)
unfolding cargar_tlb agregar
cargar_con_lugar pv marco pid ahora t room = rw room refl

-- Under FIFO and LRU a load always succeeds, in one of two ways.
pub cargar_tlb-Carga :
    (pv marco pid ahora : ℕ) (t : Tlb)
    → Conocido t.algoritmo_reemplazo
    → IsValid t
    → Carga (entrada_nueva pv marco pid ahora) t (cargar_tlb pv marco pid ahora t)
cargar_tlb-Carga pv marco pid ahora t known h =
    elim (Bool-cases (ltb (length t.entries) t.capacidad)) [
      | inl room ↦ inl (ltb→lt _ _ room, cargar_con_lugar pv marco pid ahora t room)
      | inr full ↦
          let at_cap : length t.entries ≡ t.capacidad =
            omega
              (arith, h.con_lugar, lt→ltb (length t.entries) t.capacidad, ltb-false-le _ _ full) in
          let (v, victim, in_range) = victima_en t.algoritmo_reemplazo t known h at_cap in
          let (vieja, at_v) = get_elem?_in t.entries v in_range in
          inr (v, vieja, victim, at_v, cargar_llena pv marco pid ahora v vieja t full victim at_v)
    ]

-- Under FIFO and LRU a load into a valid TLB neither panics nor fails, and keeps it valid: within its
-- capacity, and with a map that names for each page an entry of that page.
pub cargar_tlb-IsValid :
    (pv marco pid ahora : ℕ) (t : Tlb)
    → Conocido t.algoritmo_reemplazo
    → IsValid t
    → (t' : Tlb) × (cargar_tlb pv marco pid ahora t ≡ some (t', true)) × IsValid t'
cargar_tlb-IsValid pv marco pid ahora t known h =
    elim (cargar_tlb-Carga pv marco pid ahora t known h) [
      | inl (room, ok) ↦ (_, ok, agregar-IsValid _ t h room)
      | inr (v, vieja, _, at_v, ok) ↦ (_, ok, reemplazada-IsValid _ vieja v t h at_v)
    ]
