-- ===== src/Cpu/Ejecucion/Fallas.antt =====
-- What a WRITE or READ does when the memory refuses the frame of its page.
use conurban_os.Prelude.{
  ℕ, ◌<◌, ◌≡◌, refl, ap, List, [], ◌∷◌, ◌++◌, Bool, true, false, none, some, arith, ltb, lt→ltb,
  ◌==◌, length, poner, poner_self,
}
use conurban_os.Cpu.Direccion.{conseguir_direccion_fisica}
use conurban_os.Cpu.Cache.{
  CacheEntry, Cache, buscar_pagina_en_cache, insertar_o_reemplazar_en_cache,
}
use conurban_os.Cpu.Entorno.{Cpu, Servicio}
use conurban_os.Cpu.Ejecucion.{
  pide_marco, inicio_de_pagina, con_respuesta, pedir_direccion, pedir_contenido_pagina,
  insertar_en_cache, traer_a_cache,
}

abbrev traida : Bool → ℕ → List ℕ → ℕ → CacheEntry
traida d pv contenido pid = record {
  pagina = pv;
  contenido = contenido;
  pid = pid;
  r = true;
  d = d;
}

buscar_falta :
    (pv pid : ℕ) (c : Cache)
    → c.pagina_index pv ≡ none
    → buscar_pagina_en_cache pv pid c ≡ some (c, none)
unfolding buscar_pagina_en_cache
buscar_falta pv pid c falta = rw (buscar_pagina_en_cache, falta) refl

abbrev con_entrada : CacheEntry → Cache → Cache
con_entrada e c = record c {
  entries = c.entries ++ e ∷ [];
  pagina_index = poner c.pagina_index e.pagina (length c.entries);
}

insertar_lem :
    (e : CacheEntry) (c : Cache)
    → c.pagina_index e.pagina ≡ none
    → length c.entries < c.capacidad
    → insertar_o_reemplazar_en_cache e c ≡ some (con_entrada e c, none)
unfolding insertar_o_reemplazar_en_cache
insertar_lem e c falta cabe =
    let hay = lt→ltb (length c.entries) c.capacidad cabe in
    rw (insertar_o_reemplazar_en_cache, falta, hay) refl

module _ (s : Servicio) where
  pedir_falla :
      (pv desplazamiento pid ahora : ℕ) (entradas : List ℕ) (c : Cpu) (m : s.Externo)
      → c.tlb_entries ≡ 0
      → (s.pedir_marco pid entradas m).1 ≡ none
      → pedir_direccion s pv desplazamiento pid entradas ahora (c, m)
        ≡ some ((c, (s.pedir_marco pid entradas m).0), none)
  unfolding pedir_direccion pide_marco con_respuesta conseguir_direccion_fisica
  pedir_falla pv desplazamiento pid ahora entradas c m sin_tlb sin_marco =
      let sin : ltb 0 c.tlb_entries ≡ false = ap (ltb 0) sin_tlb in rw (sin, sin_marco) refl

  insertar_en_lem :
      (e : CacheEntry) (ahora : ℕ) (c : Cpu) (m : s.Externo)
      → c.el_cache.pagina_index e.pagina ≡ none
      → length c.el_cache.entries < c.el_cache.capacidad
      → insertar_en_cache s e ahora (c, m)
        ≡ some (record c { el_cache = con_entrada e c.el_cache }, m)
  unfolding insertar_en_cache
  insertar_en_lem e ahora c m falta cabe = rw (insertar_lem e c.el_cache falta cabe) refl

-- With pages of more than one byte, without a TLB and with room in the page cache: where the memory refuses the frame of a page that
-- is not in the cache, the page at the address 0 is asked for, and its contents are put in the cache as those of
-- the page and the process that asked.
pub traer_a_cache-ajena :
    (s : Servicio) (d : Bool) (pv desplazamiento pid ahora : ℕ) (entradas contenido : List ℕ)
    (c : Cpu) (m : s.Externo)
    → c.tlb_entries ≡ 0
    → 1 < c.page_size
    → c.el_cache.pagina_index pv ≡ none
    → length c.el_cache.entries < c.el_cache.capacidad
    → (s.pedir_marco pid entradas m).1 ≡ none
    → (s.leer_pagina (some 0) (s.pedir_marco pid entradas m).0).1 ≡ some contenido
    → (c' : Cpu) × (traer_a_cache s d pv desplazamiento pid entradas ahora (c, m)
        ≡ some (
          (c', (s.leer_pagina (some 0) (s.pedir_marco pid entradas m).0).0),
          length c.el_cache.entries,
        ))
      × (c'.el_cache.entries ≡ c.el_cache.entries ++ traida d pv contenido pid ∷ [])
      × (c'.el_cache.pagina_index pv ≡ some (length c.el_cache.entries))
unfolding traer_a_cache pedir_contenido_pagina inicio_de_pagina
traer_a_cache-ajena s d pv desplazamiento pid ahora entradas contenido c m sin_tlb grande falta cabe
      sin_marco da =
    let no_uno : (c.page_size == 1) ≡ false = ground arith in
    let e = traida d pv contenido pid in
    let esta = poner_self c.el_cache.pagina_index pv (length c.el_cache.entries) in
    let pide = pedir_falla s pv desplazamiento pid ahora entradas c m sin_tlb sin_marco in
    let m2 = (s.leer_pagina (some 0) (s.pedir_marco pid entradas m).0).0 in
    let pone = insertar_en_lem s e ahora c m2 falta cabe in
    let c' : Cpu = record c { el_cache = con_entrada e c.el_cache } in
    (c', rw (buscar_falta pv pid c.el_cache falta, pide, no_uno, da, pone, esta) refl, refl, esta)
