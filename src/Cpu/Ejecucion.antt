-- ===== src/Cpu/Ejecucion.antt =====
-- Execute of cpu/utils/utils.go, with the requests for a frame and for the contents of a page and
-- the write-back of InsertarOReemplazarEnCache. The clock is read once in a step.
pub mod Saltos
pub mod Escritura
pub mod Fallas
use conurban_os.Prelude.{
  ℕ, zero, suc, ◌+◌, ◌-◌, ◌*◌, ◌%◌, List, [], ◌∷◌, Bool, true, false, ◌&&◌, ◌||◌, Option, none,
  some, ◌>>=◌, ltb, ◌==◌, if◌then◌else◌, get_elem?, set,
}
use conurban_os.Cpu.Mmu.{extraer_entradas_y_desplazamiento}
use conurban_os.Cpu.Tlb.{Tlb, buscar_marco_en_tlb}
use conurban_os.Cpu.Direccion.{conseguir_direccion_fisica}
use conurban_os.Cpu.Cache.{
  CacheEntry, Cache, buscar_pagina_en_cache, insertar_o_reemplazar_en_cache, escribir_cache,
  leer_de_cache,
}
use conurban_os.Cpu.Instruccion.{
  InstruccionDecodificada, Operacion, write, read, goto, io, init_proc, dump_memory, exit, noop,
  operacion, parse_int,
}
use conurban_os.Cpu.Entorno.{
  Pcb, Cpu, Syscall, syscall_io, syscall_init, syscall_dump, syscall_exit, Servicio,
}

pub data ResultadoEjecucion : Type 0 where
  continuar_ejecucion ponerse_espera error_ejecucion : ResultadoEjecucion

-- Whether the frame is asked for: there is no TLB, or it misses.
unfoldable pub pide_marco : ℕ → ℕ → ℕ → Cpu → Bool
unfolding buscar_marco_en_tlb
pide_marco pagina_virtual pid ahora c =
    if ltb 0 c.tlb_entries
    then (elim (buscar_marco_en_tlb pagina_virtual pid ahora c.tlb) [
      | none ↦ false
      | some (t, none) ↦ true
      | some (t, some marco) ↦ false
    ])
    else true

-- The address that PedirContenidoPagina sends: the start of the page. The remainder of -1 is -1, but
-- for a page size of 1.
unfoldable pub inicio_de_pagina : ℕ → Option ℕ → Option ℕ
inicio_de_pagina page_size none = if page_size == 1 then none else some 0
inicio_de_pagina page_size (some direccion_fisica) =
    some (direccion_fisica - direccion_fisica % page_size)

-- The division by 0 of ExtraerEntradasYDesplazamiento.
abbrev pub divide_por_cero : Cpu → Bool
divide_por_cero c = (c.page_size == 0) || (ltb 0 c.number_of_levels && (c.entries_per_page == 0))

abbrev pub extraer : ℕ → Cpu → List ℕ × ℕ × ℕ
extraer direccion_log c =
    extraer_entradas_y_desplazamiento direccion_log c.page_size c.entries_per_page
      c.number_of_levels

module _ (s : Servicio) where
  -- ConseguirDireccionFisica with its request, and before that the step that has its answer.
  unfoldable pub con_respuesta :
      ℕ → ℕ → ℕ → ℕ → Cpu → s.Externo × Option ℕ → Option ((Cpu × s.Externo) × Option ℕ)
  con_respuesta pagina_virtual desplazamiento pid ahora c r = do
    (t, direccion) ←
        conseguir_direccion_fisica c.tlb_entries c.page_size r.1 pagina_virtual desplazamiento pid
          ahora c.tlb
    some ((record c { tlb = t }, r.0), direccion)

  unfoldable pub pedir_direccion :
      ℕ → ℕ → ℕ → List ℕ → ℕ → Cpu × s.Externo → Option ((Cpu × s.Externo) × Option ℕ)
  pedir_direccion pagina_virtual desplazamiento pid entradas ahora (c, m) =
      con_respuesta pagina_virtual desplazamiento pid ahora c
        (if pide_marco pagina_virtual pid ahora c then s.pedir_marco pid entradas m else (m, none))

  -- An error gives empty contents.
  unfoldable pub pedir_contenido_pagina : ℕ → Option ℕ → s.Externo → s.Externo × List ℕ
  pedir_contenido_pagina page_size direccion_fisica m =
      let r = s.leer_pagina (inicio_de_pagina page_size direccion_fisica) m in
      (r.0, elim r.1 [ none ↦ [] | some contenido ↦ contenido ])

  -- The contents of a modified victim are sent to the address of its page. The cache does not change
  -- in between, so the entry is in its place before.
  unfoldable pub insertar_en_cache : CacheEntry → ℕ → Cpu × s.Externo → Option (Cpu × s.Externo)
  insertar_en_cache nueva ahora (c, m) = do
    (cache, victima) ← insertar_o_reemplazar_en_cache nueva c.el_cache
    let c1 : Cpu = record c { el_cache = cache }
    elim victima [
      | none ↦ some (c1, m)
      | some v ↦ do
        let (entradas, _, _) = extraer (v.pagina * c.page_size) c
        ((c2, m2), direccion) ← pedir_direccion v.pagina 0 v.pid entradas ahora (c1, m)
        some (c2, (s.actualizar_pagina v.pid direccion v.contenido m2).0)
    ]

  -- The index of the page's entry, which is brought into the cache on a miss, with the bit given.
  unfoldable pub traer_a_cache :
      Bool → ℕ → ℕ → ℕ → List ℕ → ℕ → Cpu × s.Externo → Option ((Cpu × s.Externo) × ℕ)
  traer_a_cache d pagina_virtual desplazamiento pid entradas ahora (c, m) = do
    (cache, encontrada) ← buscar_pagina_en_cache pagina_virtual pid c.el_cache
    let c1 : Cpu = record c { el_cache = cache }
    elim encontrada [
      | some i ↦ some ((c1, m), i)
      | none ↦ do
        ((c2, m2), direccion) ←
            pedir_direccion pagina_virtual desplazamiento pid entradas ahora (c1, m)
        let r = pedir_contenido_pagina c.page_size direccion m2
        (c3, m3) ←
            insertar_en_cache
              (record { pagina = pagina_virtual; contenido = r.1; pid = pid; r = true; d = d })
              ahora (c2, r.0)
        i ← c3.el_cache.pagina_index pagina_virtual
        some ((c3, m3), i)
    ]

  -- WRITE.
  unfoldable pub ejecutar_write : ℕ → List ℕ → ℕ → ℕ → Cpu × s.Externo → Option (Cpu × s.Externo)
  ejecutar_write direccion_log dato pid ahora (c, m) =
      let (entradas, desplazamiento, pagina_virtual) = extraer direccion_log c in
      if divide_por_cero c
      then none
      else (if ltb 0 c.cache_entries
          then (do
            ((c1, m1), i) ←
                traer_a_cache true pagina_virtual desplazamiento pid entradas ahora (c, m)
            e ← get_elem? c1.el_cache.entries i
            (e', _) ← escribir_cache e desplazamiento dato
            let cache : Cache = record c1.el_cache { entries = set c1.el_cache.entries i e' }
            some (record c1 { el_cache = cache }, m1))
          else (do
            ((c1, m1), direccion) ←
                pedir_direccion pagina_virtual desplazamiento pid entradas ahora (c, m)
            some (c1, (s.escribir_dato direccion dato pid m1).0)))

  -- READ: `detras` is what the array of the contents holds behind them.
  unfoldable pub ejecutar_read : List ℕ → ℕ → ℕ → ℕ → ℕ → Cpu × s.Externo → Option (Cpu × s.Externo)
  ejecutar_read detras direccion_log tamanio pid ahora (c, m) =
      let (entradas, desplazamiento, pagina_virtual) = extraer direccion_log c in
      if divide_por_cero c
      then none
      else (if ltb 0 c.cache_entries
          then (do
            ((c1, m1), i) ←
                traer_a_cache false pagina_virtual desplazamiento pid entradas ahora (c, m)
            e ← get_elem? c1.el_cache.entries i
            (e', _) ← leer_de_cache detras e desplazamiento tamanio
            let cache : Cache = record c1.el_cache { entries = set c1.el_cache.entries i e' }
            some (record c1 { el_cache = cache }, m1))
          else (do
            ((c1, m1), direccion) ←
                pedir_direccion pagina_virtual desplazamiento pid entradas ahora (c, m)
            some (c1, (s.leer_dato direccion tamanio pid m1).0)))

  -- A system call, which says whether it blocks the process; true in the last place is an error.
  unfoldable pub pedir_syscall :
      Syscall → Bool → Pcb → Cpu × s.Externo → (Cpu × s.Externo) × Pcb × ResultadoEjecucion × Bool
  pedir_syscall llamada bloqueante pcb (c, m) =
      let r = s.syscall llamada m in
      let c1 : Cpu = if bloqueante then record c { envie_syscall_bloqueante = true } else c in
      if r.1
      then ((c1, r.0), pcb, ponerse_espera, false)
      else ((c1, r.0), pcb, error_ejecucion, true)

  -- The cases of the switch, over the parameters. A parameter that is a negative number is not
  -- modelled, and gives none.
  unfoldable pub ejecutar :
      Operacion
      → List (List ℕ)
      → List ℕ
      → ℕ
      → Pcb
      → Cpu × s.Externo
      → Option ((Cpu × s.Externo) × Pcb × ResultadoEjecucion × Bool)
  ejecutar noop ps detras ahora pcb w =
      some (w, record pcb { pc = suc pcb.pc }, continuar_ejecucion, false)
  ejecutar write ps detras ahora pcb w = do
    p0 ← get_elem? ps 0
    direccion_log ← parse_int p0
    dato ← get_elem? ps 1
    w1 ← ejecutar_write direccion_log dato pcb.pid ahora w
    some (w1, record pcb { pc = suc pcb.pc }, continuar_ejecucion, false)
  ejecutar read ps detras ahora pcb w = do
    p0 ← get_elem? ps 0
    direccion_log ← parse_int p0
    p1 ← get_elem? ps 1
    tamanio ← parse_int p1
    w1 ← ejecutar_read detras direccion_log tamanio pcb.pid ahora w
    some (w1, record pcb { pc = suc pcb.pc }, continuar_ejecucion, false)
  ejecutar goto ps detras ahora pcb w = do
    p0 ← get_elem? ps 0
    nuevo_pc ← parse_int p0
    some (w, record pcb { pc = nuevo_pc }, continuar_ejecucion, false)
  ejecutar io ps detras ahora pcb w = do
    p1 ← get_elem? ps 1
    tiempo ← parse_int p1
    p0 ← get_elem? ps 0
    let pcb1 : Pcb = record pcb { pc = suc pcb.pc }
    some (pedir_syscall (syscall_io p0 w.0.nombre_cpu tiempo pcb.pid pcb1.pc) true pcb1 w)
  ejecutar init_proc ps detras ahora pcb w = do
    p1 ← get_elem? ps 1
    tamanio ← parse_int p1
    p0 ← get_elem? ps 0
    let pcb1 : Pcb = record pcb { pc = suc pcb.pc }
    some (pedir_syscall (syscall_init tamanio p0 w.0.nombre_cpu pcb.pid pcb1.pc) false pcb1 w)
  ejecutar dump_memory ps detras ahora pcb w =
      let pcb1 : Pcb = record pcb { pc = suc pcb.pc } in
      some (pedir_syscall (syscall_dump pcb.pid pcb1.pc w.0.nombre_cpu) true pcb1 w)
  ejecutar exit ps detras ahora pcb w =
      some (pedir_syscall (syscall_exit pcb.pid w.0.nombre_cpu) true pcb w)

  unfoldable pub execute :
      InstruccionDecodificada
      → List ℕ
      → ℕ
      → Pcb
      → Cpu × s.Externo
      → Option ((Cpu × s.Externo) × Pcb × ResultadoEjecucion × Bool)
  execute inst_deco detras ahora pcb w = elim (operacion inst_deco.nombre) [
    | none ↦ some (w, pcb, ponerse_espera, true)
    | some o ↦ ejecutar o inst_deco.parametros detras ahora pcb w
  ]
