-- ===== src/Memoria/Almacen.antt =====
-- AlmacenarProceso of memoria/utils/paginacion.go, for one request at a time. The lines of the script
-- file are an argument. The source gives the mutex of the frames back between the search for free
-- frames and the marks: almacenar_proceso has no other request in between, and its two halves are apart
-- for what a second request does there. `none` is a panic.
pub mod Efecto
pub mod Carrera
use conurban_os.Prelude.{
  ℕ, suc, ◌+◌, ◌-◌, ◌/◌, List, [], Bool, true, false, Option, none, some, ◌>>=◌, ◌==◌, ◌||◌,
  if◌then◌else◌, poner, length,
}
use Prim.Native.String.{String}
use conurban_os.Memoria.Estado.{Memoria, TablaPaginas, tabla, fin, metrica_cero}
use conurban_os.Memoria.Tabla.{crear_tabla, techo}
use conurban_os.Memoria.Marcos.{buscar_marcos_disponibles, asignar_frames_a_proceso}

-- The frames are marked and put in a table; a process of no page gets an empty table.
asignar_y_crear : ℕ → List ℕ → Memoria → Option (List Bool × TablaPaginas)
asignar_y_crear indices_necesarios indices_disponibles m =
    if indices_necesarios == 0 then some (m.marcos_ocupados, tabla fin) else (do
      ocupados ← asignar_frames_a_proceso indices_disponibles m.marcos_ocupados
      t ← crear_tabla m.config.number_of_levels m.config.entries_per_page indices_disponibles
      some (ocupados, t))

-- The new entries of the maps.
guardar : ℕ → List String → List ℕ → List Bool → TablaPaginas → Memoria → Memoria
guardar pid instrucciones indices_disponibles ocupados t m = record m {
  marcos_ocupados = ocupados;
  procesos = poner m.procesos pid (record {
    pseudocodigo = instrucciones;
    suspendido = false;
    tabla_de_paginas = t;
    inicio_swap = 0;
    cantidad_de_paginas = length indices_disponibles;
  });
  procesos_mutex = λ j. (pid == j) || m.procesos_mutex j;
  metricas = poner m.metricas pid metrica_cero;
}

-- The search for as many free frames as the size needs; nil is `none` inside.
unfoldable pub buscar_frames : ℕ → Memoria → Option (Option (List ℕ))
buscar_frames tamanio m =
    if m.config.page_size == 0
    then none
    else some (buscar_marcos_disponibles (techo tamanio m.config.page_size) m.marcos_ocupados)

-- What follows the search, in the memory as it is by then.
unfoldable pub completar : ℕ → ℕ → List String → List ℕ → Memoria → Option Memoria
unfolding asignar_y_crear guardar
completar pid indices_necesarios instrucciones indices_disponibles m = do
  (ocupados, t) ← asignar_y_crear indices_necesarios indices_disponibles m
  some (guardar pid instrucciones indices_disponibles ocupados t m)

-- The result is false where the source returns -1.
unfoldable pub almacenar_proceso : ℕ → ℕ → List String → Memoria → Option (Memoria × Bool)
unfolding buscar_frames completar
almacenar_proceso pid tamanio instrucciones m = do
  r ← buscar_frames tamanio m
  elim r [
    | none ↦ some (m, false)
    | some indices_disponibles ↦ do
      m' ← completar pid (techo tamanio m.config.page_size) instrucciones indices_disponibles m
      some (m', true)
  ]
