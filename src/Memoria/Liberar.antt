-- ===== src/Memoria/Liberar.antt =====
-- eliminarMarcosFisicos, recorrerTablaYLiberarMarcos and actualizarTablaPaginas of
-- memoria/utils/paginacion.go. `none` is a panic. A pid with no mutex panics on its lock.
pub mod Efecto
use conurban_os.Prelude.{
  ℕ, zero, suc, ◌+◌, ◌*◌, List, [], ◌∷◌, ◌++◌, Bool, true, false, Option, none, some, ◌>>=◌, leb,
  if◌then◌else◌, get_elem?, set, take, drop, replicate, length, poner, ◌==◌,
}
use conurban_os.Memoria.Estado.{
  Memoria, TablaPaginas, tabla, Entradas, fin, entrada, EntradaTp, pagina, siguiente_nivel, Pagina,
  PaginaLinkeada, Metrica, incrementar_metrica, proceso_de,
}
use conurban_os.Memoria.Bytes.{escribir_bytes}

-- `Memoria[inicio : inicio+tamanio]`, which panics past the end.
abbrev pub tramo : ℕ → ℕ → List ℕ → Option (List ℕ)
tramo inicio tamanio bytes =
    if leb (inicio + tamanio) (length bytes) then some (take tamanio (drop inicio bytes)) else none

-- The page of one entry, where its frame is marked: its content is copied, the frame is filled
-- with zeros and is free again.
unfoldable pub liberar_marco : ℕ → ℕ → Memoria × List Pagina → Option (Memoria × List Pagina)
unfolding escribir_bytes
liberar_marco numero_de_pagina frame (m, paginas) = elim (get_elem? m.marcos_ocupados frame) [
  | some true ↦ do
    contenido ← tramo (frame * m.config.page_size) m.config.page_size m.bytes
    bytes ← escribir_bytes (frame * m.config.page_size) (replicate m.config.page_size 0) m.bytes
    some (
      record m { bytes = bytes; marcos_ocupados = set m.marcos_ocupados frame false },
      paginas ++ (record { numero_de_pagina = numero_de_pagina; contenido = contenido }) ∷ [],
    )
  | _ ↦ some (m, paginas)
]

unfoldable mutual
  pub liberar_tabla : ℕ → TablaPaginas → Memoria × List Pagina → Option (Memoria × List Pagina)
  liberar_tabla pid (tabla es) (m, paginas) =
      liberar_entradas pid es (incrementar_metrica Metrica.accesos_tablas pid 1 m, paginas)

  pub liberar_entradas : ℕ → Entradas → Memoria × List Pagina → Option (Memoria × List Pagina)
  liberar_entradas pid fin s = some s
  liberar_entradas pid (entrada e es) s = do
    s' ← liberar_entrada pid e s
    liberar_entradas pid es s'

  pub liberar_entrada : ℕ → EntradaTp → Memoria × List Pagina → Option (Memoria × List Pagina)
  liberar_entrada pid (pagina p f) s = liberar_marco p f s
  liberar_entrada pid (siguiente_nivel t) s = liberar_tabla pid t s

unfoldable pub recorrer_tabla_y_liberar_marcos :
    ℕ → TablaPaginas → Memoria × List Pagina → Option (Memoria × List Pagina)
unfolding liberar_tabla
recorrer_tabla_y_liberar_marcos pid t s = liberar_tabla pid t s

unfoldable pub eliminar_marcos_fisicos : ℕ → Memoria → Option (Memoria × List Pagina)
unfolding recorrer_tabla_y_liberar_marcos
eliminar_marcos_fisicos pid m =
    if m.procesos_mutex pid
    then recorrer_tabla_y_liberar_marcos pid (proceso_de m pid).tabla_de_paginas (m, [])
    else none

-- `paginasMap[numero]`: of two entries with one number the later one counts.
unfoldable pub buscar_linkeada : ℕ → List PaginaLinkeada → Option ℕ
buscar_linkeada p [] = none
buscar_linkeada p (l ∷ ls) = elim (buscar_linkeada p ls) [
  | some f ↦ some f
  | none ↦ if l.numero_de_pagina == p then some l.numero_de_frame else none
]

-- The frame of one page: the new entry, and the marks with the frame taken.
unfoldable pub enlazar : ℕ → ℕ → List PaginaLinkeada → List Bool → Option (EntradaTp × List Bool)
enlazar p f linkeadas ocupados = elim (buscar_linkeada p linkeadas) [
  | none ↦ some (pagina p f, ocupados)
  | some f' ↦
      if leb (suc f') (length ocupados) then some (pagina p f', set ocupados f' true) else none
]

-- The walk counts one access for each table; `accesos` is that count.
unfoldable mutual
  pub actualizar_tabla :
      TablaPaginas → List PaginaLinkeada → List Bool → ℕ → Option (TablaPaginas × List Bool × ℕ)
  actualizar_tabla (tabla es) linkeadas ocupados accesos = do
    (es', ocupados', accesos') ← actualizar_entradas es linkeadas ocupados (suc accesos)
    some (tabla es', ocupados', accesos')

  pub actualizar_entradas :
      Entradas → List PaginaLinkeada → List Bool → ℕ → Option (Entradas × List Bool × ℕ)
  actualizar_entradas fin linkeadas ocupados accesos = some (fin, ocupados, accesos)
  actualizar_entradas (entrada e es) linkeadas ocupados accesos = do
    (e', ocupados', accesos') ← actualizar_entrada e linkeadas ocupados accesos
    (es', ocupados'', accesos'') ← actualizar_entradas es linkeadas ocupados' accesos'
    some (entrada e' es', ocupados'', accesos'')

  pub actualizar_entrada :
      EntradaTp → List PaginaLinkeada → List Bool → ℕ → Option (EntradaTp × List Bool × ℕ)
  actualizar_entrada (pagina p f) linkeadas ocupados accesos = do
    (e, ocupados') ← enlazar p f linkeadas ocupados
    some (e, ocupados', accesos)
  actualizar_entrada (siguiente_nivel t) linkeadas ocupados accesos = do
    (t', ocupados', accesos') ← actualizar_tabla t linkeadas ocupados accesos
    some (siguiente_nivel t', ocupados', accesos')

unfoldable pub actualizar_tabla_paginas : ℕ → List PaginaLinkeada → Memoria → Option Memoria
unfolding actualizar_tabla enlazar
actualizar_tabla_paginas pid linkeadas m =
    if m.procesos_mutex pid
    then (do
      (t, ocupados, accesos) ←
          actualizar_tabla (proceso_de m pid).tabla_de_paginas linkeadas m.marcos_ocupados 0
      some (
          incrementar_metrica Metrica.accesos_tablas pid accesos (record m {
            marcos_ocupados = ocupados;
            procesos = poner m.procesos pid (record (proceso_de m pid) { tabla_de_paginas = t });
          })))
    else none
