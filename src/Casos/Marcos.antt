-- ===== src/Casos/Marcos.antt =====
-- Frames and stored processes at concrete inputs.
use conurban_os.Prelude.{
  ℕ, ◌+◌, ◌/◌, ◌%◌, ◌≡◌, ◌<◌, ◌≤◌, ◌⊎◌, inl, inr, List, [], ◌∷◌, Bool, true, false, none, some,
  arith, refl, get_elem?, length, replicate, if◌then◌else◌,
}
use conurban_os.Memoria.Estado.{Memoria, tabla, fin, proceso_de}
use conurban_os.Memoria.Tabla.{crear_tabla}
use conurban_os.Memoria.Marcos.{asignar_frames_a_proceso, buscar_marcos_disponibles, contar_libres}
use conurban_os.Memoria.Marcos.Busqueda.{Libres, buscar_marcos_disponibles_lem}
use conurban_os.Memoria.Marcos.Asignacion.{pertenece, asignar_frames_lem}
use conurban_os.Memoria.Almacen.{almacenar_proceso, buscar_frames, completar}
use conurban_os.Memoria.Almacen.Carrera.{completar-completar}
use conurban_os.Memoria.Almacen.Efecto.{Almacenado, almacenar_proceso_lem, almacenar-zero}
use conurban_os.Memoria.Accesos.{obtener_marco_proceso, contesta}
use conurban_os.Memoria.Accesos.Traduccion.{acceso_lem}
use conurban_os.Memoria.Swap.{obtener_indice_swap_disponible}
use conurban_os.Memoria.Swap.Indices.{Bloque, obtener_indice-Bloque}
use conurban_os.Cpu.Mmu.{extraer_entradas_y_desplazamiento, traducir_logica_a_fisica}

abbrev ocupados : List Bool
ocupados = true ∷ false ∷ false ∷ true ∷ false ∷ false ∷ false ∷ false ∷ []

-- Eight frames of four bytes, two of them taken; two levels of two entries.
abbrev pub vacia : Memoria
vacia = record {
  config = record { memory_size = 32; page_size = 4; entries_per_page = 2; number_of_levels = 2 };
  bytes = replicate 32 65;
  marcos_ocupados = ocupados;
  procesos = λ pid. none;
  procesos_mutex = λ pid. false;
  metricas = λ pid. none;
  indices_swap_ocupados = true ∷ false ∷ false ∷ [];
  archivo_swap = [];
}

almacenar_proceso_lem_example :
    ((almacenar_proceso 1 10 [] vacia ≡ some (vacia, false))
      × (contar_libres vacia.marcos_ocupados < 3))
    ⊎ ((m' : Memoria) × (frames : List ℕ) × (almacenar_proceso 1 10 [] vacia ≡ some (m', true))
        × Almacenado 1 3 frames vacia m')
almacenar_proceso_lem_example =
    almacenar_proceso_lem 1 10 [] vacia 2 1 1 (omega arith) (omega arith) (omega arith)
      (omega arith)

-- The process that is stored there.
pub guardado : (m' : Memoria) × (frames : List ℕ) × Almacenado 1 3 frames vacia m'
unfolding contar_libres
guardado =
    elim (almacenar_proceso_lem 1 10 [] vacia 2 1 1 (omega arith) (omega arith) (omega arith)
      (omega arith)) [
        | inl (_, pocos) ↦ absurd (omega (arith, pocos))
        | inr (m', frames, _, a) ↦ (m', frames, a)
      ]

acceso_lem_example :
    let r = extraer_entradas_y_desplazamiento 9 4 2 2 in
    (f : ℕ) × (m'' : Memoria) × (obtener_marco_proceso (some (1, r.0)) guardado.0
      ≡ some (m'', contesta f))
    × (get_elem? vacia.marcos_ocupados f ≡ some false)
    × (get_elem? m''.marcos_ocupados f ≡ some true)
    × (traducir_logica_a_fisica f r.1 4 / 4 ≡ f)
    × (traducir_logica_a_fisica f r.1 4 % 4 ≡ 9 % 4)
acceso_lem_example =
    acceso_lem 1 3 0 1 9 guardado.1 vacia guardado.0 guardado.2 (omega arith) (omega arith)
      (omega arith) (omega arith) (omega arith)

almacenar-zero_example :
    ((almacenar_proceso 1 0 [] vacia ≡ some (vacia, false))
      × (contar_libres vacia.marcos_ocupados ≡ 0))
    ⊎ ((m' : Memoria) × (almacenar_proceso 1 0 [] vacia ≡ some (m', true))
        × (0 < contar_libres vacia.marcos_ocupados)
        × (m'.marcos_ocupados ≡ vacia.marcos_ocupados)
        × ((proceso_de m' 1).tabla_de_paginas ≡ tabla fin)
        × ((proceso_de m' 1).cantidad_de_paginas ≡ 1))
almacenar-zero_example = almacenar-zero 1 [] vacia (omega arith)

abbrev los_tres : List ℕ
los_tres = 1 ∷ 2 ∷ 4 ∷ []

-- Two processes of ten bytes, three pages each: both searches find the frames 1, 2 and 4.
las_halla : buscar_frames 10 vacia ≡ some (some los_tres)
unfolding buscar_frames buscar_marcos_disponibles
las_halla = refl

completar-completar_example :
    (m1 : Memoria) × (m2 : Memoria) × (completar 1 3 [] los_tres vacia ≡ some m1)
    × (completar 2 3 [] los_tres m1 ≡ some m2)
    × (los_tres ≡ los_tres)
    × ((proceso_de m2 2).tabla_de_paginas ≡ (proceso_de m2 1).tabla_de_paginas)
    × (crear_tabla 2 2 los_tres ≡ some (proceso_de m2 1).tabla_de_paginas)
    × (contar_libres m2.marcos_ocupados + 3 ≡ contar_libres vacia.marcos_ocupados)
completar-completar_example =
    completar-completar 1 2 10 10 2 1 1 [] [] los_tres los_tres vacia (omega arith) refl refl
      (omega arith) (omega arith) las_halla las_halla

buscar_marcos_disponibles_lem_example :
    ((buscar_marcos_disponibles 2 ocupados ≡ none) × (contar_libres ocupados < 2))
    ⊎ ((fs : List ℕ) × (buscar_marcos_disponibles 2 ocupados ≡ some fs)
        × Libres 0 fs ocupados
        × (length fs ≡ 2)
        × (2 ≤ contar_libres ocupados))
buscar_marcos_disponibles_lem_example = buscar_marcos_disponibles_lem 2 2 ocupados refl

asignar_frames_lem_example :
    (ocupados' : List Bool) × (asignar_frames_a_proceso (2 ∷ 4 ∷ []) ocupados ≡ some ocupados')
    × (length ocupados' ≡ length ocupados)
    × (contar_libres ocupados' + 2 ≡ contar_libres ocupados)
    × ((f : ℕ)
        → get_elem? ocupados' f
          ≡ (if pertenece f (2 ∷ 4 ∷ []) then some true else get_elem? ocupados f))
asignar_frames_lem_example =
    asignar_frames_lem 0 (2 ∷ 4 ∷ []) ocupados (omega arith, refl, (omega arith, refl, tt))

obtener_indice-Bloque_example :
    Bloque 2
      (true ∷ false ∷ false ∷ [])
      (obtener_indice_swap_disponible 2 (true ∷ false ∷ false ∷ [])).0
      (obtener_indice_swap_disponible 2 (true ∷ false ∷ false ∷ [])).1
obtener_indice-Bloque_example = obtener_indice-Bloque 2 (true ∷ false ∷ false ∷ [])
