-- ===== src/Cpu/Cache/Clock.antt =====
-- CLOCK ends, and what its search leaves.
use conurban_os.Prelude.{
  ℕ, zero, suc, ◌≤◌, ◌<◌, ◌≡◌, refl, List, [], ◌∷◌, true, false, some, arith, get_elem?,
  get_elem?_in, set, length, length-set, map, inl, inr, sym, ◌∙◌, ap, if◌then◌else◌, Bool-cases,
  some_inj,
}
use conurban_os.Cpu.Cache.{CacheEntry, Cache, con_r, pasar, buscar_victima_clock}

unfoldable referenciadas : List CacheEntry → ℕ
referenciadas [] = 0
referenciadas (e ∷ es) = if e.r then suc (referenciadas es) else referenciadas es

-- The entries with their bit of reference left out.
abbrev pub sin_r : List CacheEntry → List CacheEntry
sin_r es = map (con_r false) es

referenciadas-le : (es : List CacheEntry) → referenciadas es ≤ length es
unfolding referenciadas
referenciadas-le [] = omega arith
referenciadas-le (e ∷ es) = let ih = referenciadas-le es in ground arith

referenciadas-set :
    (es : List CacheEntry) (i : ℕ) (e : CacheEntry)
    → get_elem? es i ≡ some e
    → e.r ≡ true
    → suc (referenciadas (set es i (con_r false e))) ≡ referenciadas es
unfolding referenciadas
referenciadas-set [] i e at is_r = absurd ground arith
referenciadas-set (x ∷ es) zero e at is_r =
    let x_r : x.r ≡ true = ap (λ y. y.r) (some_inj at) ∙ is_r in rw x_r refl
referenciadas-set (x ∷ es) (suc i) e at is_r =
    let ih = referenciadas-set es i e at is_r in ground arith

sin_r-set :
    (es : List CacheEntry) (i : ℕ) (e : CacheEntry)
    → get_elem? es i ≡ some e
    → sin_r (set es i (con_r false e)) ≡ sin_r es
sin_r-set [] i e at = refl
sin_r-set (x ∷ es) zero e at = ap (λ y. con_r false y ∷ sin_r es) (sym (some_inj at))
sin_r-set (x ∷ es) (suc i) e at = ap (λ ys. con_r false x ∷ ys) (sin_r-set es i e at)

-- The victim is not referenced, and only bits of reference have changed.
pub record Hallada (c c' : Cache) (v : ℕ) : Type 0 where
  pub victima : (e : CacheEntry) × (get_elem? c'.entries v ≡ some e) × (e.r ≡ false)
  pub contenidos : sin_r c'.entries ≡ sin_r c.entries
  pub indice : c'.pagina_index ≡ c.pagina_index

sigue :
    (k : ℕ) (c : Cache) (e : CacheEntry)
    → get_elem? c.entries c.clock_hand ≡ some e
    → e.r ≡ true
    → buscar_victima_clock (suc k) c ≡ buscar_victima_clock k (pasar e c)
unfolding buscar_victima_clock
sigue k c e at is_r = rw (buscar_victima_clock, at, is_r) refl

termina :
    (k : ℕ) (c : Cache) (e : CacheEntry)
    → get_elem? c.entries c.clock_hand ≡ some e
    → e.r ≡ false
    → buscar_victima_clock (suc k) c ≡ some (c, c.clock_hand)
unfolding buscar_victima_clock
termina k c e at not_r = rw (buscar_victima_clock, at, not_r) refl

pasar-lt :
    (e : CacheEntry) (c : Cache)
    → c.clock_hand < length c.entries
    → (pasar e c).clock_hand < length (pasar e c).entries
pasar-lt e c hand = let same = length-set c.entries c.clock_hand (con_r false e) in grind arith

clock_lem :
    (k : ℕ) (c : Cache)
    → referenciadas c.entries < k
    → c.clock_hand < length c.entries
    → (c' : Cache) × (v : ℕ) × (buscar_victima_clock k c ≡ some (c', v)) × Hallada c c' v
clock_lem zero c fuel hand = absurd (omega arith)
clock_lem (suc k) c fuel hand =
    let (e, at) = get_elem?_in c.entries c.clock_hand hand in
    elim (Bool-cases e.r) [
      | inr not_r ↦ (
        c,
        c.clock_hand,
        termina k c e at not_r,
        record { victima = (e, at, not_r); contenidos = refl; indice = refl },
      )
      | inl is_r ↦
          let c1 = pasar e c in
          let (c', v, ok, h) =
            clock_lem k c1 (omega (arith, referenciadas-set c.entries c.clock_hand e at is_r))
              (pasar-lt e c hand) in
          (
            c',
            v,
            sigue k c e at is_r ∙ ok,
            record {
              victima = h.victima;
              contenidos = h.contenidos ∙ sin_r-set c.entries c.clock_hand e at;
              indice = h.indice;
            },
          )
    ]

-- With a hand inside the cache, CLOCK ends within one turn more than the cache has entries: its
-- victim is not referenced, and the search changes nothing but bits of reference and the hand.
pub buscar_victima_clock-Hallada :
    (c : Cache)
    → c.clock_hand < length c.entries
    → (c' : Cache) × (v : ℕ) × (buscar_victima_clock (suc (length c.entries)) c ≡ some (c', v))
      × Hallada c c' v
buscar_victima_clock-Hallada c hand =
    clock_lem (suc (length c.entries)) c (omega (arith, referenciadas-le c.entries)) hand
