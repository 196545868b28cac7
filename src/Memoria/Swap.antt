-- ===== src/Memoria/Swap.antt =====
-- The swap file: memoria/utils/swap.go. The file is its bytes: a write past the end fills the gap
-- with zeros, a read gives what there is. Seeking and writing succeed on an open file; whether
-- the file can be opened is an argument. `none` is a panic.
pub mod Indices
use conurban_os.Prelude.{
  ℕ, zero, suc, ◌+◌, ◌-◌, ◌*◌, List, [], ◌∷◌, ◌++◌, Bool, true, false, Option, none, some, ◌>>=◌,
  ltb, leb, ◌==◌, not, if◌then◌else◌, get_elem?, set, take, drop, replicate, length, poner,
}
use conurban_os.Memoria.Estado.{Memoria, Pagina, proceso_de}

-- The inner loop of the search: whether one of the n indices from i on is taken.
unfoldable pub hay_ocupado : ℕ → List Bool → Bool
hay_ocupado zero ocupados = false
hay_ocupado (suc n) [] = false
hay_ocupado (suc n) (true ∷ ocupados) = true
hay_ocupado (suc n) (false ∷ ocupados) = hay_ocupado n ocupados

-- The outer loop at index i, over the marks from there on: the first block of n free ones.
unfoldable pub buscar_bloque : ℕ → ℕ → List Bool → Option ℕ
unfolding hay_ocupado
buscar_bloque n i [] = if n == 0 then some i else none
buscar_bloque n i (o ∷ ocupados) =
    let resto = buscar_bloque n (suc i) ocupados in
    if leb n (length (o ∷ ocupados))
    then (if hay_ocupado n (o ∷ ocupados) then resto else some i)
    else none

-- The marks with n of them taken from index i on.
unfoldable pub ocupar : ℕ → ℕ → List Bool → List Bool
ocupar i zero ocupados = ocupados
ocupar i (suc n) ocupados = ocupar (suc i) n (set ocupados i true)

unfoldable pub obtener_indice_swap_disponible : ℕ → List Bool → ℕ × List Bool
unfolding buscar_bloque ocupar
obtener_indice_swap_disponible cant ocupados = elim (buscar_bloque cant 0 ocupados) [
  | some i ↦ (i, ocupar i cant ocupados)
  | none ↦ (length ocupados, ocupados ++ replicate cant true)
]

-- `archivo.Write` at a position
unfoldable pub escribir_archivo : ℕ → List ℕ → List ℕ → List ℕ
escribir_archivo puntero contenido archivo =
    take puntero archivo
    ++ replicate (puntero - length archivo) 0
    ++ contenido
    ++ drop (puntero + length contenido) archivo

-- leerPaginaSWAP: a read at the end of the file is an error and gives no byte; a short one leaves
-- zeros in the rest of the page.
unfoldable pub leer_pagina_swap : ℕ → ℕ → ℕ → List ℕ → List ℕ
leer_pagina_swap page_size inicio_swap numero_de_pagina archivo =
    let leido = take page_size (drop ((inicio_swap + numero_de_pagina) * page_size) archivo) in
    if length leido == 0 then [] else leido ++ replicate (page_size - length leido) 0

-- The marks with n of them free from index i on; an index past the end is passed over.
unfoldable pub desocupar : ℕ → ℕ → List Bool → List Bool
desocupar i zero ocupados = ocupados
desocupar i (suc n) ocupados = desocupar (suc i) n (set ocupados i false)

-- The rounds of eliminarPaginasSWAP from page i on.
unfoldable pub eliminar_desde :
    ℕ → ℕ → ℕ → ℕ → ℕ → List ℕ × List Bool → List Pagina × List ℕ × List Bool
unfolding leer_pagina_swap escribir_archivo desocupar
eliminar_desde page_size inicio_swap cantidad i zero (archivo, ocupados) = ([], archivo, ocupados)
eliminar_desde page_size inicio_swap cantidad i (suc n) (archivo, ocupados) =
    let contenido = leer_pagina_swap page_size inicio_swap i archivo in
    let archivo' =
      escribir_archivo ((inicio_swap + i) * page_size) (replicate page_size 0) archivo in
    let r =
      eliminar_desde page_size inicio_swap cantidad (suc i) n
        (archivo', desocupar inicio_swap cantidad ocupados) in
    ((record { numero_de_pagina = i; contenido = contenido }) ∷ r.0, r.1, r.2)

-- The nil of the source is an empty list: its callers call it with at least one page, or drop the
-- result. On a file that is not open the first seek fails.
unfoldable pub eliminar_paginas_swap : Bool → ℕ → Memoria → Memoria × List Pagina
unfolding eliminar_desde
eliminar_paginas_swap false pid m = (m, [])
eliminar_paginas_swap true pid m =
    let p = proceso_de m pid in
    let r =
      eliminar_desde m.config.page_size p.inicio_swap p.cantidad_de_paginas 0 p.cantidad_de_paginas
        (m.archivo_swap, m.indices_swap_ocupados) in
    (record m { archivo_swap = r.1; indices_swap_ocupados = r.2 }, r.0)

-- The loop of escribirEnSWAP over the pages; the result is false where it returns -1. The start
-- of the process is set when its page 0 is written.
unfoldable pub escribir_paginas_swap : ℕ → ℕ → List Pagina → Memoria → Option (Memoria × Bool)
unfolding escribir_archivo
escribir_paginas_swap pid inicio [] m = some (m, true)
escribir_paginas_swap pid inicio (pagina ∷ paginas) m =
    let page_size = m.config.page_size in
    let escrito = record m {
      archivo_swap =
          escribir_archivo ((inicio + pagina.numero_de_pagina) * page_size) pagina.contenido
            m.archivo_swap;
    } in
    let con_inicio = record escrito {
      procesos =
          poner escrito.procesos pid (record (proceso_de escrito pid) { inicio_swap = inicio });
    } in
    let es_la_primera = pagina.numero_de_pagina == 0 in
    let resto =
      escribir_paginas_swap pid inicio paginas (if es_la_primera then con_inicio else escrito) in
    if not (length pagina.contenido == page_size)
    then some (escrito, false)
    else (if es_la_primera then (if m.procesos_mutex pid then resto else none) else resto)

unfoldable pub escribir_en_swap : Bool → ℕ → List Pagina → Memoria → Option (Memoria × Bool)
unfolding escribir_paginas_swap obtener_indice_swap_disponible
escribir_en_swap false pid paginas m = some (m, false)
escribir_en_swap true pid paginas m =
    let r = obtener_indice_swap_disponible (length paginas) m.indices_swap_ocupados in
    escribir_paginas_swap pid r.0 paginas (record m { indices_swap_ocupados = r.1 })
