-- ===== src/Memoria/Procesos.antt =====
-- The handlers that the kernel calls: memoria/utils/procesosController.go, escribirPaginas of
-- memoria/utils/paginacion.go. A request is its decoded message, `none` where it does not decode;
-- handlers run one at a time. Delays and logs are left out. A panic is `none`.
pub mod Suspension
use conurban_os.Prelude.{
  ℕ, zero, suc, ◌+◌, ◌*◌, List, [], ◌∷◌, ◌++◌, Bool, true, false, Option, none, some, ◌>>=◌, ltb,
  leb, ◌==◌, if◌then◌else◌, set, length, poner, borrar,
}
use mathlib.Core.Option
use Prim.Native.String.{String}
use conurban_os.Memoria.Estado.{
  Memoria, TablaPaginas, tabla, Entradas, fin, entrada, EntradaTp, pagina, siguiente_nivel, Pagina,
  PaginaLinkeada, Metrica, incrementar_metrica, proceso_de,
}
use conurban_os.Memoria.Almacen.{almacenar_proceso}
use conurban_os.Memoria.Bytes.{escribir}
use conurban_os.Memoria.Liberar.{eliminar_marcos_fisicos, actualizar_tabla_paginas, tramo}
use conurban_os.Memoria.Marcos.{buscar_marcos_disponibles}
use conurban_os.Memoria.Swap.{escribir_en_swap, eliminar_paginas_swap}

-- The HTTP statuses that the handlers answer with.
pub data Respuesta : Type 0 where
  ok bad_request not_implemented internal_server_error service_unavailable : Respuesta

pub record IniciarProcesoDto : Type 0 where
  pub pseudocodigo : List String
  pub tamanio : ℕ
  pub pid : ℕ

-- The script file is given by its lines.
unfoldable pub iniciar_proceso : Option IniciarProcesoDto → Memoria → Option (Memoria × Respuesta)
iniciar_proceso none m = some (m, bad_request)
iniciar_proceso (some mensaje) m = do
  (m', hecho) ← almacenar_proceso mensaje.pid mensaje.tamanio mensaje.pseudocodigo m
  some (m', if hecho then ok else not_implemented)

-- `proceso := Procesos[pid]` is a copy made before the frames go to swap, and it is stored over
-- the entry at the end.
unfoldable pub suspender_proceso : Bool → Option ℕ → Memoria → Option (Memoria × Respuesta)
suspender_proceso abre none m = some (m, bad_request)
suspender_proceso abre (some pid) m = do
  let proceso = record (proceso_de m pid) { suspendido = true }
  (m', paginas) ← eliminar_marcos_fisicos pid m
  (m'', escrito) ← escribir_en_swap abre pid paginas m'
  some (
      if escrito
      then (
        incrementar_metrica Metrica.bajadas_swap pid 1
            (record m'' { procesos = poner m''.procesos pid proceso }),
        ok,
      )
      else (m'', internal_server_error))

unfoldable pub finalizar_proceso : Bool → Option ℕ → Memoria → Option (Memoria × Respuesta)
finalizar_proceso abre none m = some (m, bad_request)
finalizar_proceso abre (some pid) m = do
  m' ←
      (if (proceso_de m pid).suspendido
        then some (eliminar_paginas_swap abre pid m).0
        else Option.map (λ r. r.0) (eliminar_marcos_fisicos pid m))
  some (record m' { procesos = borrar m'.procesos pid; metricas = borrar m'.metricas pid }, ok)

-- escribirPaginas: the pages into the frames, one for each frame; `none` is also the nil that its
-- caller dereferences, where a page does not fit.
unfoldable pub escribir_paginas :
    ℕ → List Pagina → List ℕ → Memoria → Option (Memoria × List PaginaLinkeada)
escribir_paginas pid paginas [] m = some (m, [])
escribir_paginas pid [] (marco ∷ marcos) m = none
escribir_paginas pid (p ∷ paginas) (marco ∷ marcos) m = do
  (m', escrito) ← escribir (marco * m.config.page_size) p.contenido m
  let ocupado =
      incrementar_metrica Metrica.escrituras_memoria pid 1
        (record m' { marcos_ocupados = set m'.marcos_ocupados marco true })
  (m'', linkeadas) ← escribir_paginas pid paginas marcos ocupado
  let linkeada : PaginaLinkeada = record {
    numero_de_pagina = p.numero_de_pagina;
    numero_de_frame = marco;
  }
  if escrito then some (m'', linkeada ∷ linkeadas) else none

-- The end of ReanudarProceso.
unfoldable pub activar : ℕ → Memoria → Memoria
activar pid m = incrementar_metrica Metrica.subidas_memoria pid 1 (record m {
  procesos = poner m.procesos pid (record (proceso_de m pid) { suspendido = false });
})

unfoldable pub traer : ℕ → List ℕ → Memoria × List Pagina → Option (Memoria × Respuesta)
unfolding escribir_paginas activar
traer pid marcos (m, []) = some (m, internal_server_error)
traer pid marcos (m, p ∷ paginas) = do
  (m', linkeadas) ← escribir_paginas pid (p ∷ paginas) marcos m
  m'' ← actualizar_tabla_paginas pid linkeadas m'
  some (activar pid m'', ok)

unfoldable pub reanudar_proceso : Bool → Option ℕ → Memoria → Option (Memoria × Respuesta)
unfolding traer
reanudar_proceso abre none m = some (m, bad_request)
reanudar_proceso abre (some pid) m =
    let p = proceso_de m pid in
    if p.suspendido
    then (if p.cantidad_de_paginas == 0
        then some (activar pid m, ok)
        else (elim (buscar_marcos_disponibles p.cantidad_de_paginas m.marcos_ocupados) [
          | none ↦ some (m, service_unavailable)
          | some marcos ↦ traer pid marcos (eliminar_paginas_swap abre pid m)
        ]))
    else some (m, internal_server_error)

-- The bytes of the dump: the frames of the table in order, a frame past the end left out.
unfoldable mutual
  pub volcar_tabla : ℕ → List ℕ → TablaPaginas → List ℕ × ℕ
  volcar_tabla page_size bytes (tabla es) =
      let r = volcar_entradas page_size bytes es in (r.0, suc r.1)

  pub volcar_entradas : ℕ → List ℕ → Entradas → List ℕ × ℕ
  volcar_entradas page_size bytes fin = ([], 0)
  volcar_entradas page_size bytes (entrada e es) =
      let r = volcar_entrada page_size bytes e in
      let s = volcar_entradas page_size bytes es in (r.0 ++ s.0, r.1 + s.1)

  pub volcar_entrada : ℕ → List ℕ → EntradaTp → List ℕ × ℕ
  volcar_entrada page_size bytes (pagina p f) = elim (tramo (f * page_size) page_size bytes) [
    | none ↦ ([], 0)
    | some b ↦ (b, 0)
  ]
  volcar_entrada page_size bytes (siguiente_nivel t) = volcar_tabla page_size bytes t

-- The state, the answer and what is written; `crea` says whether the dump file can be made.
unfoldable pub memory_dump :
    Bool → Option ℕ → Memoria → Option (Memoria × Respuesta × Option (List ℕ))
unfolding volcar_tabla
memory_dump crea none m = some (m, bad_request, none)
memory_dump crea (some pid) m =
    if m.procesos_mutex pid
    then (elim (m.procesos pid) [
      | none ↦ some (m, internal_server_error, none)
      | some p ↦
          if crea
          then (let r = volcar_tabla m.config.page_size m.bytes p.tabla_de_paginas in
              some (incrementar_metrica Metrica.accesos_tablas pid r.1 m, ok, some r.0))
          else some (m, internal_server_error, none)
    ])
    else none
