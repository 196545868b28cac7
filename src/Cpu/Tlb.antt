-- ===== src/Cpu/Tlb.antt =====
-- The TLB: BuscarMarcoEnTLB, ReemplazarEnTLB and CargarTLB of cpu/utils/utils.go, over the types
-- of globals/cpu/globals.go. The time of the clock is an argument; a panic is `none`.
pub mod Validez
pub mod Consulta
pub mod Menor
use conurban_os.Prelude.{
  ℕ, zero, suc, ◌+◌, ◌%◌, List, [], ◌∷◌, ◌++◌, Bool, true, false, Option, none, some, ◌>>=◌, ltb,
  ◌==◌, if◌then◌else◌, get_elem?, set, length, Mapa, poner, borrar, not,
}

pub data Algoritmo : Type 0 where
  fifo lru otro : Algoritmo

pub record TlbEntry : Type 0 where
  pub pagina : ℕ
  pub marco : ℕ
  pub pid : ℕ
  pub timestamp : ℕ

pub record Tlb : Type 0 where
  pub entries : List TlbEntry
  pub pagina_index : Mapa ℕ
  pub capacidad : ℕ
  pub algoritmo_reemplazo : Algoritmo
  pub fifo_index : ℕ

unfoldable pub nueva_tlb : ℕ → Algoritmo → Tlb
nueva_tlb capacidad algoritmo = record {
  entries = [];
  pagina_index = λ p. none;
  capacidad = capacidad;
  algoritmo_reemplazo = algoritmo;
  fifo_index = 0;
}

-- The timestamp is renewed on a hit under LRU.
unfoldable pub renovar : Algoritmo → ℕ → ℕ → TlbEntry → Tlb → Tlb
renovar lru ahora index e t = record t {
  entries = set t.entries index (record e { timestamp = ahora });
}
renovar _ ahora index e t = t

-- A hit is `some`; a miss is `none`, where the source returns -1 and false.
unfoldable pub buscar_marco_en_tlb : ℕ → ℕ → ℕ → Tlb → Option (Tlb × Option ℕ)
unfolding renovar
buscar_marco_en_tlb pagina_virtual pid ahora t = elim (t.pagina_index pagina_virtual) [
  | none ↦ some (t, none)
  | some index ↦ elim (get_elem? t.entries index) [
    | none ↦ none
    | some e ↦
        if not (e.pid == pid)
        then some (t, none)
        else some (renovar t.algoritmo_reemplazo ahora index e t, some e.marco)
  ]
]

-- The loop of LRU over the entries from index i on: the least timestamp so far and its index.
unfoldable pub menor_timestamp : ℕ → List TlbEntry → ℕ × ℕ → ℕ
menor_timestamp i [] (minimo, victima) = victima
menor_timestamp i (e ∷ es) (minimo, victima) =
    menor_timestamp (suc i) es
      (if ltb e.timestamp minimo then (e.timestamp, i) else (minimo, victima))

unfoldable pub victima_lru : List TlbEntry → Option ℕ
unfolding menor_timestamp
victima_lru [] = none
victima_lru (e ∷ es) = some (menor_timestamp 1 es (e.timestamp, 0))

-- `none` is the error of an empty TLB under LRU, or of another algorithm.
unfoldable pub indice_victima : Algoritmo → Tlb → Option ℕ
unfolding victima_lru
indice_victima fifo t = some t.fifo_index
indice_victima lru t = victima_lru t.entries
indice_victima otro t = none

pub avanzar : Algoritmo → Tlb → ℕ
avanzar fifo t = (t.fifo_index + 1) % t.capacidad
avanzar _ t = t.fifo_index

-- The result is false where the source returns an error, with the TLB unchanged.
unfoldable pub reemplazar_en_tlb : TlbEntry → Tlb → Option (Tlb × Bool)
unfolding indice_victima avanzar
reemplazar_en_tlb nueva t =
    if ltb (length t.entries) t.capacidad
    then some (t, false)
    else (elim (indice_victima t.algoritmo_reemplazo t) [
      | none ↦ some (t, false)
      | some victima ↦ do
        e ← get_elem? t.entries victima
        some (
          record t {
            entries = set t.entries victima nueva;
            pagina_index = poner (borrar t.pagina_index e.pagina) nueva.pagina victima;
            fifo_index = avanzar t.algoritmo_reemplazo t;
          },
          true,
        )
    ])

abbrev pub entrada_nueva : ℕ → ℕ → ℕ → ℕ → TlbEntry
entrada_nueva pv marco pid ahora = record {
  pagina = pv;
  marco = marco;
  pid = pid;
  timestamp = ahora;
}

unfoldable pub cargar_tlb : ℕ → ℕ → ℕ → ℕ → Tlb → Option (Tlb × Bool)
unfolding reemplazar_en_tlb
cargar_tlb pv marco pid ahora t =
    let nueva = entrada_nueva pv marco pid ahora in
    if ltb (length t.entries) t.capacidad
    then some (
      record t {
        entries = t.entries ++ nueva ∷ [];
        pagina_index = poner t.pagina_index pv (length t.entries);
      },
      true,
    )
    else reemplazar_en_tlb nueva t
