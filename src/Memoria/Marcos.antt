-- ===== src/Memoria/Marcos.antt =====
-- The frames: buscarMarcosDisponibles and asignarFramesAProceso of memoria/utils/paginacion.go,
-- CalcularMock of memoria/utils/utils.go. The mutex makes each of them one step.
pub mod Busqueda
pub mod Asignacion
use conurban_os.Prelude.{
  ℕ, zero, suc, ◌+◌, ◌*◌, List, [], ◌∷◌, ◌++◌, Bool, true, false, Option, none, some, ◌>>=◌, ltb,
  leb, if◌then◌else◌, set, length,
}
use conurban_os.Memoria.Estado.{Memoria}

-- The loop at frame i, over the marks from there on, with the frames found so far.
unfoldable pub buscar_desde : ℕ → List Bool → ℕ → List ℕ → Option (List ℕ)
buscar_desde i [] cantidad result = none
buscar_desde i (true ∷ ocupados) cantidad result = buscar_desde (suc i) ocupados cantidad result
buscar_desde i (false ∷ ocupados) cantidad result =
    let resto = buscar_desde (suc i) ocupados cantidad (result ++ i ∷ []) in
    if leb cantidad (length (result ++ i ∷ [])) then some (result ++ i ∷ []) else resto

-- `none` is the nil of the source: there are not enough free frames.
unfoldable pub buscar_marcos_disponibles : ℕ → List Bool → Option (List ℕ)
unfolding buscar_desde
buscar_marcos_disponibles cantidad ocupados = buscar_desde 0 ocupados cantidad []

-- `none` is a panic here.
unfoldable pub asignar_frames_a_proceso : List ℕ → List Bool → Option (List Bool)
asignar_frames_a_proceso [] ocupados = some ocupados
asignar_frames_a_proceso (frame ∷ frames) ocupados =
    let resto = asignar_frames_a_proceso frames (set ocupados frame true) in
    if ltb frame (length ocupados) then resto else none

-- The loop of CalcularMock.
unfoldable pub contar_libres : List Bool → ℕ
contar_libres [] = 0
contar_libres (true ∷ ocupados) = contar_libres ocupados
contar_libres (false ∷ ocupados) = suc (contar_libres ocupados)

unfoldable pub calcular_mock : Memoria → ℕ
unfolding contar_libres
calcular_mock m = contar_libres m.marcos_ocupados * m.config.page_size
