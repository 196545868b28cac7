-- ===== src/Cpu/Cache.antt =====
-- The page cache of cpu/utils/utils.go (BuscarPaginaEnCache, InsertarOReemplazarEnCache, the two
-- searches of a victim, EscribirCache and LeerDeCache) over the types of globals/cpu/globals.go.
-- A panic is `none`.
pub mod Clock
pub mod ClockM
pub mod Insercion
use conurban_os.Prelude.{
  ℕ, zero, suc, ◌+◌, ◌%◌, List, [], ◌∷◌, ◌++◌, Bool, true, false, ◌&&◌, not, Option, none, some,
  ◌>>=◌, ltb, ◌==◌, if◌then◌else◌, get_elem?, set, length, take, drop, Mapa, poner, borrar,
}

pub data AlgoritmoCache : Type 0 where
  clock clock_m desconocido : AlgoritmoCache

pub record CacheEntry : Type 0 where
  pub pagina : ℕ
  pub contenido : List ℕ
  pub pid : ℕ
  pub r : Bool
  pub d : Bool

pub record Cache : Type 0 where
  pub entries : List CacheEntry
  pub pagina_index : Mapa ℕ
  pub capacidad : ℕ
  pub algoritmo_reemplazo : AlgoritmoCache
  pub clock_hand : ℕ

-- The bit of reference, set or reset.
abbrev pub con_r : Bool → CacheEntry → CacheEntry
con_r b e = record e { r = b }

-- A hit sets the bit of reference and gives the entry's index.
unfoldable pub buscar_pagina_en_cache : ℕ → ℕ → Cache → Option (Cache × Option ℕ)
buscar_pagina_en_cache pagina_virtual pid c = elim (c.pagina_index pagina_virtual) [
  | none ↦ some (c, none)
  | some index ↦ elim (get_elem? c.entries index) [
    | none ↦ none
    | some e ↦
        if not (e.pid == pid)
        then some (c, none)
        else some (record c { entries = set c.entries index (con_r true e) }, some index)
  ]
]

-- The step of the hand that CLOCK makes over a referenced entry.
abbrev pub pasar : CacheEntry → Cache → Cache
pasar e c = record c {
  entries = set c.entries c.clock_hand (con_r false e);
  clock_hand = (c.clock_hand + 1) % length c.entries;
}

-- The loop of CLOCK on fuel; a turn that goes on resets one bit of reference.
unfoldable pub buscar_victima_clock : ℕ → Cache → Option (Cache × ℕ)
buscar_victima_clock zero c = none
buscar_victima_clock (suc k) c = elim (get_elem? c.entries c.clock_hand) [
  | none ↦ none
  | some e ↦ elim e.r [ false ↦ some (c, c.clock_hand) | true ↦ buscar_victima_clock k (pasar e c) ]
]

-- The two loops of CLOCK-M, with the turns left and the index i.
unfoldable pub primera_pasada : ℕ → ℕ → Cache → Option (Option ℕ)
primera_pasada zero i c = some none
primera_pasada (suc k) i c =
    let idx = (c.clock_hand + i) % length c.entries in
    elim (get_elem? c.entries idx) [
      | none ↦ none
      | some e ↦ elim (not e.r && not e.d) [
        | true ↦ some (some idx)
        | false ↦ primera_pasada k (suc i) c
      ]
    ]

unfoldable pub segunda_pasada : ℕ → ℕ → Cache → Option (Cache × Option ℕ)
segunda_pasada zero i c = some (c, none)
segunda_pasada (suc k) i c =
    let idx = (c.clock_hand + i) % length c.entries in
    elim (get_elem? c.entries idx) [
      | none ↦ none
      | some e ↦ elim (not e.r && e.d) [
        | true ↦ some (c, some idx)
        | false ↦
            segunda_pasada k (suc i) (record c { entries = set c.entries idx (con_r false e) })
      ]
    ]

abbrev pub apuntar : ℕ → Cache → Cache
apuntar idx c = record c { clock_hand = (idx + 1) % length c.entries }

-- The calls of itself are on fuel.
unfoldable pub buscar_victima_clockm : ℕ → Cache → Option (Cache × ℕ)
unfolding primera_pasada segunda_pasada
buscar_victima_clockm zero c = none
buscar_victima_clockm (suc k) c = elim (primera_pasada (length c.entries) 0 c) [
  | none ↦ none
  | some (some idx) ↦ some (apuntar idx c, idx)
  | some none ↦ elim (segunda_pasada (length c.entries) 0 c) [
    | none ↦ none
    | some (c', some idx) ↦ some (apuntar idx c', idx)
    | some (c', none) ↦ buscar_victima_clockm k c'
  ]
]

unfoldable pub buscar_victima : AlgoritmoCache → Cache → Option (Cache × ℕ)
unfolding buscar_victima_clock buscar_victima_clockm
buscar_victima clock c = buscar_victima_clock (suc (length c.entries)) c
buscar_victima clock_m c = buscar_victima_clockm 2 c
buscar_victima desconocido c = none

-- The result holds the entry that the source writes back to the memory module, when there is one.
unfoldable pub insertar_o_reemplazar_en_cache :
    CacheEntry → Cache → Option (Cache × Option CacheEntry)
unfolding buscar_victima
insertar_o_reemplazar_en_cache nueva c = elim (c.pagina_index nueva.pagina) [
  | some idx ↦
      if ltb idx (length c.entries)
      then some (record c { entries = set c.entries idx (con_r true nueva) }, none)
      else none
  | none ↦
      if ltb (length c.entries) c.capacidad
      then some (
        record c {
          entries = c.entries ++ nueva ∷ [];
          pagina_index = poner c.pagina_index nueva.pagina (length c.entries);
        },
        none,
      )
      else do
        (c1, victima) ← buscar_victima c.algoritmo_reemplazo c
        e ← get_elem? c1.entries victima
        some (
          record c1 {
            entries = set c1.entries victima nueva;
            pagina_index = poner (borrar c1.pagina_index e.pagina) nueva.pagina victima;
            clock_hand = (victima + 1) % length c1.entries;
          },
          if e.d then some e else none,
        )
]

-- `copy(contenido[desplazamiento:], dato)`: it stops at the end of the contents.
abbrev pub copiar : ℕ → List ℕ → List ℕ → List ℕ
copiar desplazamiento dato contenido =
    take (length contenido)
      (take desplazamiento contenido ++ dato ++ drop (desplazamiento + length dato) contenido)

-- False is the error of a write beyond byte 64; the slice of a shorter page panics.
unfoldable pub escribir_cache : CacheEntry → ℕ → List ℕ → Option (CacheEntry × Bool)
escribir_cache e desplazamiento dato =
    if ltb 64 (desplazamiento + length dato)
    then some (e, false)
    else (if ltb (length e.contenido) desplazamiento
        then none
        else some (
          record e { contenido = copiar desplazamiento dato e.contenido; r = true; d = true },
          true,
        ))

-- The slice is in range up to the contents' capacity: `detras` is what the array holds behind them.
unfoldable pub leer_de_cache : List ℕ → CacheEntry → ℕ → ℕ → Option (CacheEntry × List ℕ)
leer_de_cache detras e desplazamiento tamanio =
    let arreglo = e.contenido ++ detras in
    if ltb (length arreglo) (desplazamiento + tamanio)
    then none
    else some (con_r true e, take tamanio (drop desplazamiento arreglo))
