-- ===== src/Memoria/Accesos/Traduccion.antt =====
-- A logical address from the CPU through the memory: AlmacenarProceso, the CPU's indices,
-- ObtenerMarcoProceso, and the physical address.
use conurban_os.Prelude.{
  ℕ, suc, ◌*◌, ◌/◌, ◌%◌, ◌<◌, ◌≡◌, refl, List, true, false, some, arith, get_elem?,
}
use conurban_os.Memoria.Estado.{Memoria, TablaPaginas, proceso_de, Metrica, incrementar_metrica}
use conurban_os.Memoria.Tabla.{marco_en, marco}
use conurban_os.Memoria.Almacen.Efecto.{Almacenado, Almacenado-marco_en}
use conurban_os.Memoria.Accesos.{obtener_marco_proceso, contesta}
use conurban_os.Cpu.Mmu.{
  extraer_entradas_y_desplazamiento, entradas_de, traducir_logica_a_fisica, extraer_lem,
}

-- The memory answers the indices of a page with the frame that its table leads to.
contesta_marco :
    (pid : ℕ) (entradas : List ℕ) (m : Memoria) (f : ℕ)
    → m.procesos_mutex pid ≡ true
    → marco_en m.config.number_of_levels (proceso_de m pid).tabla_de_paginas entradas
      ≡ some (marco f)
    → (m' : Memoria) × (obtener_marco_proceso (some (pid, entradas)) m ≡ some (m', contesta f))
      × (m'.bytes ≡ m.bytes)
      × (m'.config ≡ m.config)
      × (m'.marcos_ocupados ≡ m.marcos_ocupados)
unfolding obtener_marco_proceso incrementar_metrica
contesta_marco pid entradas m f conocido encontrado = (
  incrementar_metrica Metrica.accesos_tablas pid m.config.number_of_levels m,
  rw (conocido, encontrado) refl,
  refl,
  refl,
  refl,
)

con_config :
    (p f : ℕ) (t : TablaPaginas) {niveles niveles' e e' : ℕ}
    → niveles ≡ niveles'
    → e ≡ e'
    → marco_en niveles' t (entradas_de p e' niveles') ≡ some (marco f)
    → marco_en niveles t (entradas_de p e niveles) ≡ some (marco f)
con_config p f t h h' x = rw (h, h') x

-- For an offset below the page size, the physical address divided by that size is the frame, and
-- the remainder is the offset.
pub traducir-div-mod :
    (f d w : ℕ)
    → d < w
    → (traducir_logica_a_fisica f d w / w ≡ f) × (traducir_logica_a_fisica f d w % w ≡ d)
unfolding traducir_logica_a_fisica
traducir-div-mod f d w h = (grind arith, grind arith)

-- The answer to the indices of a page, and what it leaves of the memory.
pub acceso_marco :
    (pid n k e p : ℕ) (frames : List ℕ) (m m' : Memoria)
    → Almacenado pid n frames m m'
    → m.config.number_of_levels ≡ suc (suc k)
    → m.config.entries_per_page ≡ suc e
    → p < n
    → p < suc e * suc e
    → (f : ℕ) × (m'' : Memoria) × (obtener_marco_proceso
          (some (pid, entradas_de p m.config.entries_per_page m.config.number_of_levels))
          m'
        ≡ some (m'', contesta f))
      × (m''.bytes ≡ m'.bytes)
      × (m''.config ≡ m'.config)
      × (m''.marcos_ocupados ≡ m'.marcos_ocupados)
      × (get_elem? m.marcos_ocupados f ≡ some false)
      × (get_elem? m'.marcos_ocupados f ≡ some true)
acceso_marco pid n k e p frames m m' a niveles entradas lt ltt =
    let (f, encontrado, libre, tomado) =
      Almacenado-marco_en pid n k e p frames m m' a niveles entradas lt ltt in
    let indices = entradas_de p m.config.entries_per_page m.config.number_of_levels in
    let encontrado' =
      con_config p f (proceso_de m' pid).tabla_de_paginas niveles entradas encontrado in
    let encontrado'' : marco_en m'.config.number_of_levels (proceso_de m' pid).tabla_de_paginas
          indices
        ≡ some (marco f) =
      rw a.config encontrado' in
    let (m'', ok, bytes, config, marcas) =
      contesta_marco pid indices m' f a.conocido encontrado'' in
    (f, m'', ok, bytes, config, marcas, libre, tomado)

-- A process that has been stored, with two levels or more, at least one entry per page and a page
-- size above 0: for each logical address in one of its pages, below page E * E for E entries per page, the memory answers the CPU's indices with a
-- frame that was free before and is taken now, and the physical address is in that frame, at the
-- offset of the logical one.
pub acceso_lem :
    (pid n k e direccion : ℕ) (frames : List ℕ) (m m' : Memoria)
    → Almacenado pid n frames m m'
    → m.config.number_of_levels ≡ suc (suc k)
    → m.config.entries_per_page ≡ suc e
    → 0 < m.config.page_size
    → direccion / m.config.page_size < n
    → direccion / m.config.page_size < suc e * suc e
    → let r =
        extraer_entradas_y_desplazamiento direccion m.config.page_size m.config.entries_per_page
          m.config.number_of_levels in
      (f : ℕ) × (m'' : Memoria) × (obtener_marco_proceso (some (pid, r.0)) m'
        ≡ some (m'', contesta f))
      × (get_elem? m.marcos_ocupados f ≡ some false)
      × (get_elem? m''.marcos_ocupados f ≡ some true)
      × (traducir_logica_a_fisica f r.1 m.config.page_size / m.config.page_size ≡ f)
      × (traducir_logica_a_fisica f r.1 m.config.page_size % m.config.page_size
          ≡ direccion % m.config.page_size)
acceso_lem pid n k e direccion frames m m' a niveles entradas pos lt ltt =
    let w = m.config.page_size in
    let (f, m'', ok, _, _, marcas, libre, tomado) =
      acceso_marco pid n k e (direccion / w) frames m m' a niveles entradas lt ltt in
    let (cociente, resto) = traducir-div-mod f (direccion % w) w (grind arith) in
    rw (extraer_lem direccion w m.config.entries_per_page m.config.number_of_levels)
      (f, m'', ok, libre, rw marcas tomado, cociente, resto)
