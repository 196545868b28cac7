-- ===== src/Memoria/Tabla.antt =====
-- The page tree: crearTabla, construirNivel and the descent of obtenerMarcoDesdeTabla, in
-- memoria/utils/paginacion.go. The number of levels, the entries per page and the frames are
-- arguments; a panic is `none`.
pub mod Construccion
pub mod Recorrido
pub mod Fallas
use conurban_os.Prelude.{
  ℕ, zero, suc, ◌+◌, ◌-◌, ◌/◌, ◌*◌, List, [], ◌∷◌, Option, none, some, ◌>>=◌, ltb, ◌==◌,
  if◌then◌else◌, get_elem?, length,
}
use conurban_os.Memoria.Estado.{
  TablaPaginas, tabla, Entradas, fin, entrada, EntradaTp, pagina, siguiente_nivel,
}

-- The loop of the last level: a page for each frame that is left, a message where none is.
unfoldable pub bucle_hojas : ℕ → ℕ → List ℕ → Entradas × ℕ
bucle_hojas zero frame_index frames = (fin, frame_index)
bucle_hojas (suc cant) frame_index frames = elim (get_elem? frames frame_index) [
  | none ↦ bucle_hojas cant frame_index frames
  | some frame ↦
      let r = bucle_hojas cant (suc frame_index) frames in
      (entrada (pagina frame_index frame) r.0, r.1)
]

-- The loop of an intermediate level; `subtabla` is the recursive call.
unfoldable pub bucle_subtablas : (ℕ → Option (TablaPaginas × ℕ)) → ℕ → ℕ → Option (Entradas × ℕ)
bucle_subtablas subtabla zero frame_index = some (fin, frame_index)
bucle_subtablas subtabla (suc cant) frame_index = do
  (t, frame_index') ← subtabla frame_index
  (resto, frame_index'') ← bucle_subtablas subtabla cant frame_index'
  some (entrada (siguiente_nivel t) resto, frame_index'')

-- `(restantes + entradas - 1) / entradas`
abbrev pub techo : ℕ → ℕ → ℕ
techo restantes entradas = (restantes + entradas - 1) / entradas

abbrev pub tabla_de : Entradas × ℕ → TablaPaginas × ℕ
tabla_de (es, frame_index) = (tabla es, frame_index)

-- With no entries per page the division panics. At a level below 1 the recursion of the source
-- has no end unless no frame is left.
unfoldable pub construir_nivel : ℕ → ℕ → List ℕ → ℕ → Option (TablaPaginas × ℕ)
unfolding bucle_hojas bucle_subtablas
construir_nivel nivel zero frames frame_index = none
construir_nivel zero (suc e) frames frame_index =
    if techo (length frames - frame_index) (suc e) == 0 then some (tabla fin, frame_index) else none
construir_nivel (suc zero) (suc e) frames frame_index =
    let restantes = length frames - frame_index in
    some (
      tabla_de
        (bucle_hojas (if ltb (suc e) restantes then suc e else restantes) frame_index frames))
construir_nivel (suc (suc nivel)) (suc e) frames frame_index = do
  r ←
      bucle_subtablas (construir_nivel (suc nivel) (suc e) frames)
        (techo (length frames - frame_index) (suc e)) frame_index
  some (tabla_de r)

unfoldable pub crear_tabla : ℕ → ℕ → List ℕ → Option TablaPaginas
unfolding construir_nivel
crear_tabla niveles entradas_por_pagina frames = do
  (t, _) ← construir_nivel niveles entradas_por_pagina frames 0
  some t

-- `tabla.Entradas[i]`
abbrev pub entrada_en : Entradas → ℕ → Option EntradaTp
entrada_en fin i = none
entrada_en (entrada e es) zero = some e
entrada_en (entrada e es) (suc i) = entrada_en es i

-- `*entrada.SiguienteNivel`, which panics on nil
abbrev pub siguiente : EntradaTp → Option TablaPaginas
siguiente (pagina p f) = none
siguiente (siguiente_nivel t) = some t

-- The loop `for i := 0; i < NUMBER_OF_LEVELS-1; i++`, over the indices that are left.
unfoldable pub bajar : ℕ → List ℕ → TablaPaginas → Option TablaPaginas
bajar zero indices t = some t
bajar (suc n) [] t = none
bajar (suc n) (i ∷ indices) (tabla es) = do e ← entrada_en es i; t ← siguiente e; bajar n indices t

-- The last index; none where there is no index at all.
abbrev pub ultimo : List ℕ → Option ℕ
ultimo [] = none
ultimo (i ∷ []) = some i
ultimo (i ∷ j ∷ indices) = ultimo (j ∷ indices)

-- A frame number, or -1.
pub data Marco : Type 0 where
  marco : ℕ → Marco
  menos_uno : Marco

abbrev marco_de : EntradaTp → Marco
marco_de (pagina p f) = marco f
marco_de (siguiente_nivel t) = menos_uno

marco_final : TablaPaginas → ℕ → Marco
marco_final (tabla es) i = elim (entrada_en es i) [ none ↦ menos_uno | some e ↦ marco_de e ]

-- The part of obtenerMarcoDesdeTabla that reads the table.
unfoldable pub marco_en : ℕ → TablaPaginas → List ℕ → Option Marco
unfolding bajar marco_final
marco_en niveles t indices = do
  t' ← bajar (niveles - 1) indices t
  i ← ultimo indices
  some (marco_final t' i)
