-- ===== src/Casos/Reemplazos.antt =====
-- The TLB and the cache at concrete inputs.
use conurban_os.Cpu.Mmu.{traducir_logica_a_fisica}
use conurban_os.Cpu.Direccion.{conseguir_direccion_fisica}
use conurban_os.Cpu.Direccion.Coherencia.{Coherente, conseguir-Coherente}
use conurban_os.Prelude.{
  inr, zero, suc, ◌-◌, Option, some_inj, ◌<◌, length, ℕ, ◌≡◌, ◌≤◌, List, [], ◌∷◌, true, false, none,
  some, arith, refl, get_elem?,
}
use conurban_os.Cpu.Tlb.{lru, TlbEntry, Tlb, nueva_tlb, entrada_nueva, cargar_tlb, victima_lru}
use conurban_os.Cpu.Tlb.Validez.{IsValid, cargar_tlb-IsValid, agregar, agregar-IsValid}
use conurban_os.Cpu.Tlb.Consulta.{Responde, buscar-cargar_tlb}
use conurban_os.Cpu.Tlb.Menor.{victima_lru-least}
use conurban_os.Cpu.Cache.{CacheEntry, Cache, clock, buscar_victima_clock, buscar_victima_clockm}
use conurban_os.Cpu.Cache.{con_r, insertar_o_reemplazar_en_cache, buscar_pagina_en_cache}
use conurban_os.Cpu.Cache.Insercion.{buscar-insertar}
use conurban_os.Cpu.Cache.ClockM.{buscar_victima_clockm-Halla}
use conurban_os.Cpu.Cache.Clock.{Hallada, buscar_victima_clock-Hallada}

-- A TLB of one entry, full.
llena : Tlb
llena = agregar (entrada_nueva 7 3 1 100) (nueva_tlb 1 lru)

nueva-IsValid : IsValid (nueva_tlb 1 lru)
unfolding nueva_tlb
nueva-IsValid = record {
  indice = λ p i e. absurd (cc);
  con_lugar = omega arith;
  puntero = omega arith;
}

llena-IsValid : IsValid llena
unfolding nueva_tlb agregar llena
llena-IsValid =
    agregar-IsValid (entrada_nueva 7 3 1 100) (nueva_tlb 1 lru) nueva-IsValid (omega arith)

cargar_tlb-IsValid_example :
    (t' : Tlb) × (cargar_tlb 8 5 1 200 llena ≡ some (t', true)) × IsValid t'
unfolding llena agregar nueva_tlb
cargar_tlb-IsValid_example = cargar_tlb-IsValid 8 5 1 200 llena tt llena-IsValid

buscar-cargar_tlb_example :
    (t' : Tlb) × (cargar_tlb 8 5 1 200 llena ≡ some (t', true)) × Responde 8 1 300 t' (some 5)
unfolding llena agregar nueva_tlb
buscar-cargar_tlb_example = buscar-cargar_tlb 8 5 1 200 300 llena tt llena-IsValid

abbrev entradas : List TlbEntry
entradas = entrada_nueva 7 3 1 100 ∷ entrada_nueva 4 2 1 60 ∷ entrada_nueva 9 1 2 80 ∷ []

mas_vieja : victima_lru entradas ≡ some 1
unfolding victima_lru
mas_vieja = refl

victima_lru-least_example :
    (m : TlbEntry) × (get_elem? entradas 1 ≡ some m)
    × ((j : ℕ) → (e : TlbEntry) → get_elem? entradas j ≡ some e → m.timestamp ≤ e.timestamp)
victima_lru-least_example = victima_lru-least entradas 1 mas_vieja

-- A cache of two referenced entries, with the hand on the second.
abbrev referida : ℕ → CacheEntry
referida p = record { pagina = p; contenido = 65 ∷ []; pid = 1; r = true; d = false }

abbrev cache : Cache
cache = record {
  entries = referida 2 ∷ referida 5 ∷ [];
  pagina_index = λ p. none;
  capacidad = 2;
  algoritmo_reemplazo = clock;
  clock_hand = 1;
}

buscar_victima_clock-Hallada_example :
    (c' : Cache) × (v : ℕ) × (buscar_victima_clock 3 cache ≡ some (c', v)) × Hallada cache c' v
buscar_victima_clock-Hallada_example = buscar_victima_clock-Hallada cache (omega arith)

buscar_victima_clockm-Halla_example :
    (c' : Cache) × (v : ℕ) × (buscar_victima_clockm 2 cache ≡ some (c', v))
    × (v < length c'.entries)
buscar_victima_clockm-Halla_example = buscar_victima_clockm-Halla cache (omega arith)

-- A memory that agrees with that TLB.
abbrev memoria : ℕ → ℕ → Option ℕ
memoria pid p = some (p - 4)

llena-Coherente : Coherente memoria llena
unfolding llena agregar nueva_tlb
llena-Coherente zero e h = rw (← some_inj h) refl
llena-Coherente (suc i) e h = absurd ground arith

conseguir-Coherente_example :
    (t' : Tlb) × (conseguir_direccion_fisica 1 64 (memoria 1 9) 9 10 1 200 llena
      ≡ some (t', some (traducir_logica_a_fisica 5 10 64)))
    × IsValid t'
    × Coherente memoria t'
unfolding llena agregar nueva_tlb
conseguir-Coherente_example =
    conseguir-Coherente memoria 1 64 9 10 1 200 5 llena (omega arith) tt llena-IsValid
      llena-Coherente refl

buscar-insertar_example :
    (c' : Cache) × (out : Option CacheEntry) × (c'' : Cache) × (i : ℕ)
    × (insertar_o_reemplazar_en_cache (referida 8) cache ≡ some (c', out))
    × (buscar_pagina_en_cache 8 1 c' ≡ some (c'', some i))
    × (get_elem? c''.entries i ≡ some (con_r true (referida 8)))
buscar-insertar_example =
    buscar-insertar (referida 8) cache tt (inr (omega arith)) (λ i h. absurd ground arith)
