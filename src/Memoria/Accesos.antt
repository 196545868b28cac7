-- ===== src/Memoria/Accesos.antt =====
-- The handlers that the CPU calls: memoria/utils/paginacionController.go,
-- memoria/utils/instruccionesController.go, and obtenerMarcoDesdeTabla of
-- memoria/utils/paginacion.go. A request is its decoded message; a panic is `none`.
pub mod Traduccion
use conurban_os.Prelude.{
  ℕ, zero, suc, ◌+◌, ◌%◌, List, [], ◌∷◌, Bool, true, false, Option, none, some, ◌>>=◌, ◌==◌,
  if◌then◌else◌, get_elem?, poner,
}
use mathlib.Core.Option
use Prim.Native.String.{String}
use conurban_os.Memoria.Estado.{Memoria, Metrica, incrementar_metrica, proceso_de}
use conurban_os.Memoria.Tabla.{Marco, marco, menos_uno, marco_en}
use conurban_os.Memoria.Bytes.{leer, escribir, actualizar_pagina}
use conurban_os.Memoria.Marcos.{calcular_mock}
use conurban_os.Memoria.Procesos.{
  Respuesta, ok, bad_request, internal_server_error, service_unavailable,
}

-- A status and a body.
pub data Contestacion {ℓ} (A : Type ℓ) : Type ℓ where
  contesta : A → Contestacion A
  falla : Respuesta → Contestacion A

-- The read of Procesos[pid] writes the same entry back, so a missing pid gets an empty process.
abbrev pub reponer : ℕ → Memoria → Memoria → Memoria
reponer pid antes m = record m { procesos = poner m.procesos pid (proceso_de antes pid) }

unfoldable pub obtener_marco_desde_tabla : ℕ → List ℕ → Memoria → Option (Memoria × Marco)
obtener_marco_desde_tabla pid entradas m =
    if m.procesos_mutex pid
    then (do
      f ← marco_en m.config.number_of_levels (proceso_de m pid).tabla_de_paginas entradas
      some (incrementar_metrica Metrica.accesos_tablas pid m.config.number_of_levels m, f))
    else none

contestar_marco : Memoria × Marco → Memoria × Contestacion ℕ
contestar_marco (m, marco f) = (m, contesta f)
contestar_marco (m, menos_uno) = (m, falla internal_server_error)

unfoldable pub obtener_marco_proceso :
    Option (ℕ × List ℕ) → Memoria → Option (Memoria × Contestacion ℕ)
unfolding contestar_marco obtener_marco_desde_tabla
obtener_marco_proceso none m = some (m, falla bad_request)
obtener_marco_proceso (some (pid, entradas)) m =
    Option.map contestar_marco (obtener_marco_desde_tabla pid entradas m)

unfoldable pub leer_pagina : Option ℕ → Memoria → Option (Contestacion (List ℕ))
leer_pagina none m = some (falla bad_request)
leer_pagina (some direccion_fisica) m =
    if m.config.page_size == 0
    then none
    else (if direccion_fisica % m.config.page_size == 0
        then Option.map contesta (leer direccion_fisica m.config.page_size m.bytes)
        else some (falla bad_request))

unfoldable pub pedir_actualizar_pagina :
    Option (ℕ × List ℕ) → Memoria → Option (Memoria × Respuesta)
pedir_actualizar_pagina none m = some (m, bad_request)
pedir_actualizar_pagina (some (direccion_fisica, contenido)) m =
    if m.config.page_size == 0
    then none
    else (if direccion_fisica % m.config.page_size == 0
        then Option.map (λ m'. (m', ok)) (actualizar_pagina direccion_fisica contenido m)
        else some (m, bad_request))

pub record LecturaDto : Type 0 where
  pub pid : ℕ
  pub posicion : ℕ
  pub tamanio : ℕ

pub record EscrituraDto : Type 0 where
  pub pid : ℕ
  pub direccion_fisica : ℕ
  pub dato : List ℕ

unfoldable pub acceder_espacio_usuario_lectura :
    Option LecturaDto → Memoria → Option (Memoria × Contestacion (List ℕ))
acceder_espacio_usuario_lectura none m = some (m, falla bad_request)
acceder_espacio_usuario_lectura (some mensaje) m = do
  leido ← leer mensaje.posicion mensaje.tamanio m.bytes
  some (
    reponer mensaje.pid m (incrementar_metrica Metrica.lecturas_memoria mensaje.pid 1 m),
    contesta leido,
  )

unfoldable pub acceder_espacio_usuario_escritura :
    Option EscrituraDto → Memoria → Option (Memoria × Respuesta)
acceder_espacio_usuario_escritura none m = some (m, bad_request)
acceder_espacio_usuario_escritura (some mensaje) m = do
  (m', escrito) ← escribir mensaje.direccion_fisica mensaje.dato m
  some (
      if escrito
      then (
        reponer mensaje.pid m (incrementar_metrica Metrica.escrituras_memoria mensaje.pid 1 m'),
        ok,
      )
      else (m', service_unavailable))

-- A program counter past the script is an index out of range.
unfoldable pub enviar_instruccion :
    Option (ℕ × ℕ) → Memoria → Option (Memoria × Contestacion String)
enviar_instruccion none m = some (m, falla bad_request)
enviar_instruccion (some (pid, pc)) m = do
  instruccion ← get_elem? (proceso_de m pid).pseudocodigo pc
  some (incrementar_metrica Metrica.instrucciones_solicitadas pid 1 m, contesta instruccion)

unfoldable pub consultar_mock : Memoria → ℕ
consultar_mock m = calcular_mock m
