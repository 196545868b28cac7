-- ===== src/Memoria/Bytes.antt =====
-- The user space as bytes: leer, escribir and actualizarPagina of memoria/utils/paginacion.go.
-- A panic (an index out of range, a division by 0) is `none`; the half-done writes before it and
-- the mutex that stays locked are not kept.
pub mod Lectura
pub mod Escritura
use conurban_os.Prelude.{
  ℕ, zero, suc, ◌+◌, ◌-◌, ◌*◌, ◌/◌, ◌%◌, List, [], ◌∷◌, ◌++◌, Bool, true, false, Option, none, some,
  ◌>>=◌, ltb, ◌==◌, if◌then◌else◌, get_elem?, set, length,
}
use conurban_os.Memoria.Estado.{Memoria}

-- `string(b)` of a byte: the UTF-8 encoding of the code point b.
unfoldable pub string_de_byte : ℕ → List ℕ
string_de_byte b = if ltb b 128 then b ∷ [] else (192 + b / 64) ∷ (128 + b % 64) ∷ []

-- The rounds that are left, from the position on.
unfoldable pub leer : ℕ → ℕ → List ℕ → Option (List ℕ)
unfolding string_de_byte
leer direccion zero bytes = some []
leer direccion (suc tamanio) bytes = do
  b ← get_elem? bytes direccion
  leido ← leer (suc direccion) tamanio bytes
  some (string_de_byte b ++ leido)

-- `Memoria[direccion+i] = dato[i]` for every i
unfoldable pub escribir_bytes : ℕ → List ℕ → List ℕ → Option (List ℕ)
escribir_bytes direccion [] bytes = some bytes
escribir_bytes direccion (d ∷ dato) bytes =
    let resto = escribir_bytes (suc direccion) dato (set bytes direccion d) in
    if ltb direccion (length bytes) then resto else none

-- The result is false where the source returns -1.
unfoldable pub escribir : ℕ → List ℕ → Memoria → Option (Memoria × Bool)
unfolding escribir_bytes
escribir direccion dato m =
    let page_size = m.config.page_size in
    if page_size == 0
    then none
    else (if ltb (page_size - direccion % page_size) (length dato) then some (m, false) else (do
      bytes ← escribir_bytes direccion dato m.bytes
      some (record m { bytes = bytes }, true)))

unfoldable pub actualizar_pagina : ℕ → List ℕ → Memoria → Option Memoria
unfolding escribir_bytes
actualizar_pagina indice_pagina dato m = do
  bytes ← escribir_bytes indice_pagina dato m.bytes
  some (record m { bytes = bytes })
