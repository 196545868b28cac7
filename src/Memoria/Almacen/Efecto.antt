-- ===== src/Memoria/Almacen/Efecto.antt =====
-- What storing a process does to the memory.
use conurban_os.Prelude.{
  ℕ, zero, suc, ◌+◌, ◌*◌, ◌<◌, ◌≡◌, refl, ◌⊎◌, inl, inr, ◌≢◌, List, [], ◌∷◌, Bool, true, false,
  some, arith, get_elem?, get_elem?_in, length, if◌then◌else◌, poner_ne, poner_self, ap, ◌==◌, ◌∙◌,
  sym, some_inj, suc==zero, ==_self,
}
use Prim.Native.String.{String}
use conurban_os.Memoria.Estado.{Memoria, tabla, fin, proceso_de}
use conurban_os.Memoria.Tabla.{crear_tabla, techo, marco_en, marco}
use conurban_os.Memoria.Tabla.Construccion.{crear_tabla_total}
use conurban_os.Memoria.Tabla.Recorrido.{marco_en-crear_tabla}
use conurban_os.Memoria.Marcos.{contar_libres, calcular_mock}
use conurban_os.Memoria.Marcos.Busqueda.{Libres, buscar_marcos_disponibles_lem}
use conurban_os.Memoria.Marcos.Asignacion.{asignar_frames_lem, pertenece}
use conurban_os.Memoria.Almacen.{
  almacenar_proceso, asignar_y_crear, guardar, buscar_frames, completar,
}
use conurban_os.Cpu.Mmu.{entradas_de}

-- The memory after a process of at least one page is stored in the frames.
pub record Almacenado (pid : ℕ) (necesarios : ℕ) (frames : List ℕ) (m m' : Memoria) : Type 0 where
  pub libres : Libres 0 frames m.marcos_ocupados
  pub cuantos : length frames ≡ necesarios
  pub marcas :
      (f : ℕ)
      → get_elem? m'.marcos_ocupados f
        ≡ (if pertenece f frames then some true else get_elem? m.marcos_ocupados f)
  pub mock : calcular_mock m' + necesarios * m.config.page_size ≡ calcular_mock m
  pub bytes : m'.bytes ≡ m.bytes
  pub config : m'.config ≡ m.config
  pub otros : (j : ℕ) → pid ≢ j → m'.procesos j ≡ m.procesos j
  pub paginas : (proceso_de m' pid).cantidad_de_paginas ≡ necesarios
  pub activo : (proceso_de m' pid).suspendido ≡ false
  pub conocido : m'.procesos_mutex pid ≡ true
  pub en_tabla :
      crear_tabla m.config.number_of_levels m.config.entries_per_page frames
      ≡ some (proceso_de m' pid).tabla_de_paginas

libre-at :
    (lo i f : ℕ) (fs : List ℕ) (ocupados : List Bool)
    → Libres lo fs ocupados
    → get_elem? fs i ≡ some f
    → get_elem? ocupados f ≡ some false
libre-at lo i f [] ocupados l h = cc
libre-at lo zero f (g ∷ fs) ocupados l h = let e = some_inj h in rw e at l.1
libre-at lo (suc i) f (g ∷ fs) ocupados l h = libre-at (suc g) i f fs ocupados l.2 h

pertenece-at : (i f : ℕ) (fs : List ℕ) → get_elem? fs i ≡ some f → pertenece f fs ≡ true
pertenece-at i f [] h = cc
pertenece-at zero f (g ∷ fs) h = ground arith
pertenece-at (suc i) f (g ∷ fs) h = ground (arith, pertenece-at i f fs h)

module _ (pid tamanio : ℕ) (instrucciones : List String) (m : Memoria) (n k e : ℕ)
    (paginas : techo tamanio m.config.page_size ≡ suc n) (con_pagina : 0 < m.config.page_size)
    (niveles : m.config.number_of_levels ≡ suc k)
    (entradas : m.config.entries_per_page ≡ suc e) where
  -- With at least one level, one entry per page and a page size above 0, storing a process of at
  -- least one page never panics. It is refused, with nothing changed, where fewer frames are free than it needs; otherwise it takes free frames, as many as it
  -- needs, marks these and no other, and no other process and no byte changes.
  pub almacenar_proceso_lem :
      ((almacenar_proceso pid tamanio instrucciones m ≡ some (m, false))
        × (contar_libres m.marcos_ocupados < suc n))
      ⊎ ((m' : Memoria) × (frames : List ℕ) × (almacenar_proceso pid tamanio instrucciones m
            ≡ some (m', true))
          × Almacenado pid (suc n) frames m m')
  unfolding almacenar_proceso buscar_frames completar calcular_mock
  almacenar_proceso_lem =
      let paso : (m.config.page_size == 0) ≡ false = ground arith in
      elim (buscar_marcos_disponibles_lem (suc n) (suc n) m.marcos_ocupados (omega arith)) [
        | inl (nada, pocos) ↦ inl (rw (paso, paginas, nada) refl, pocos)
        | inr (fs, hay, l, largo, _) ↦
            let (ocupados, ok, _, cuenta, marcas) = asignar_frames_lem 0 fs m.marcos_ocupados l in
            let (t, tabla_ok) = crear_tabla_total k e fs in
            let tabla_ok' : crear_tabla m.config.number_of_levels m.config.entries_per_page fs
                ≡ some t =
              rw (niveles, entradas) tabla_ok in
            let nuevo = poner_self m.procesos pid in
            inr (
              guardar pid instrucciones fs ocupados t m,
              fs,
              rw (paso, paginas, hay, asignar_y_crear, paginas, suc==zero, ok, tabla_ok') refl,
              record {
                libres = l;
                cuantos = largo;
                marcas = marcas;
                mock = omega (
                  arith,
                  ap (λ (z : ℕ). z * m.config.page_size) cuenta,
                  ap (λ (z : ℕ). z * m.config.page_size) largo,
                );
                bytes = refl;
                config = refl;
                otros = λ j d. poner_ne m.procesos pid _ j d;
                paginas = rw (nuevo _) largo;
                activo = rw (nuevo _) refl;
                conocido = rw (==_self pid) refl;
                en_tabla = rw (nuevo _) tabla_ok';
              },
            )
      ]

-- A stored process, with two levels or more: the CPU's indices of each of its pages below E * E,
-- for E entries per page, lead through its table to a frame that was free and is now taken.
pub Almacenado-marco_en :
    (pid n k e p : ℕ) (frames : List ℕ) (m m' : Memoria)
    → Almacenado pid n frames m m'
    → m.config.number_of_levels ≡ suc (suc k)
    → m.config.entries_per_page ≡ suc e
    → p < n
    → p < suc e * suc e
    → (f : ℕ) × (marco_en
          (suc (suc k))
          (proceso_de m' pid).tabla_de_paginas
          (entradas_de p (suc e) (suc (suc k)))
        ≡ some (marco f))
      × (get_elem? m.marcos_ocupados f ≡ some false)
      × (get_elem? m'.marcos_ocupados f ≡ some true)
Almacenado-marco_en pid n k e p frames m m' a niveles entradas lt ltt =
    let (f, en_p) = get_elem?_in frames p (omega (arith, a.cuantos)) in
    let (t, ok, encontrado) = marco_en-crear_tabla e frames p f k ltt en_p in
    let ok' : crear_tabla (suc (suc k)) (suc e) frames ≡ some (proceso_de m' pid).tabla_de_paginas =
      rw (niveles, entradas) at a.en_tabla in
    let misma : t ≡ (proceso_de m' pid).tabla_de_paginas = some_inj (sym ok ∙ ok') in
    (
      f,
      rw misma at encontrado,
      libre-at 0 p f frames m.marcos_ocupados a.libres en_p,
      a.marcas f ∙ rw (pertenece-at p f frames en_p) refl,
    )

-- With a page size above 0, a process of size 0 is refused where no frame is free, with nothing changed;
-- where one is free it is stored: it takes no frame, its table is empty, yet it is registered with one
-- page.
pub almacenar-zero :
    (pid : ℕ) (instrucciones : List String) (m : Memoria)
    → 0 < m.config.page_size
    → ((almacenar_proceso pid 0 instrucciones m ≡ some (m, false))
        × (contar_libres m.marcos_ocupados ≡ 0))
      ⊎ ((m' : Memoria) × (almacenar_proceso pid 0 instrucciones m ≡ some (m', true))
          × (0 < contar_libres m.marcos_ocupados)
          × (m'.marcos_ocupados ≡ m.marcos_ocupados)
          × ((proceso_de m' pid).tabla_de_paginas ≡ tabla fin)
          × ((proceso_de m' pid).cantidad_de_paginas ≡ 1))
unfolding almacenar_proceso buscar_frames completar
almacenar-zero pid instrucciones m con_pagina =
    let paso : (m.config.page_size == 0) ≡ false = ground arith in
    let cero : techo 0 m.config.page_size ≡ 0 = grind arith in
    elim (buscar_marcos_disponibles_lem 0 1 m.marcos_ocupados (omega arith)) [
      | inl (nada, pocos) ↦ inl (rw (paso, cero, nada) refl, omega arith)
      | inr (fs, hay, l, largo, alcanzan) ↦
          let nuevo = poner_self m.procesos pid in
          inr (
            guardar pid instrucciones fs m.marcos_ocupados (tabla fin) m,
            rw (paso, cero, hay, asignar_y_crear, cero) refl,
            omega arith,
            refl,
            rw (nuevo _) refl,
            rw (nuevo _) largo,
          )
    ]
