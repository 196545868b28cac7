-- ===== src/Sistema/Escritura.antt =====
-- A WRITE of the CPU in the bytes of the memory.
use conurban_os.Prelude.{
  ℕ, suc, zero, ◌+◌, ◌-◌, ◌*◌, ◌/◌, ◌%◌, ◌<◌, ◌≤◌, ◌≡◌, refl, ap, ◌∙◌, List, Bool, true, false,
  some, arith, ltb, get_elem?, length, get_elem?_lt, Bool-cases, inl, inr, ◌==◌,
}
use mathlib.Core.Path.{subst}
use Prim.Native.String.{String}
use conurban_os.Memoria.Estado.{Memoria, incrementar_metrica, Metrica}
use conurban_os.Memoria.Bytes.{escribir}
use conurban_os.Memoria.Bytes.Escritura.{Escrito, escribir_bytes-Escrito, escribir_bytes_total}
use conurban_os.Memoria.Almacen.Efecto.{Almacenado}
use conurban_os.Memoria.Accesos
use conurban_os.Memoria.Accesos.{contesta, EscrituraDto, reponer}
use conurban_os.Memoria.Accesos.Traduccion.{acceso_marco}
use conurban_os.Cpu.Mmu.{extraer_entradas_y_desplazamiento, entradas_de, traducir_logica_a_fisica}
use conurban_os.Cpu.Entorno.{Cpu, Syscall}
use conurban_os.Cpu.Pedidos.{
  servicio_de, pedir_marco_de_pagina, escribir_dato_memoria, cuerpo_de, aceptada,
}
use conurban_os.Cpu.Ejecucion.{
  divide_por_cero, extraer, pide_marco, pedir_direccion, con_respuesta, ejecutar_write,
}
use conurban_os.Cpu.Direccion.{conseguir_direccion_fisica}
use conurban_os.Memoria.Procesos.{ok}
use conurban_os.Sistema.{red_de_memoria, atender}

-- A write inside one page and inside the memory is accepted.
escribe :
    (pid direccion : ℕ) (dato : List ℕ) (m : Memoria)
    → 0 < m.config.page_size
    → direccion % m.config.page_size + length dato ≤ m.config.page_size
    → direccion + length dato ≤ length m.bytes
    → (m' : Memoria) × (Accesos.acceder_espacio_usuario_escritura
          (some (record { pid = pid; direccion_fisica = direccion; dato = dato }))
          m
        ≡ some (m', ok))
      × Escrito direccion dato m.bytes m'.bytes
unfolding Accesos.acceder_espacio_usuario_escritura escribir incrementar_metrica
escribe pid direccion dato m pos cabe dentro =
    let (bytes', hecho) = escribir_bytes_total direccion dato m.bytes dentro in
    let no_cero : (m.config.page_size == 0) ≡ false = ground arith in
    let entra : ltb (m.config.page_size - direccion % m.config.page_size) (length dato) ≡ false =
      ground arith in
    (
      reponer pid m
          (incrementar_metrica Metrica.escrituras_memoria pid 1 (record m { bytes = bytes' })),
      rw (no_cero, entra, hecho) refl,
      escribir_bytes-Escrito direccion dato m.bytes hecho,
    )

-- A part of a frame ends before the end of the memory.
marco_dentro : (f n w x : ℕ) → f < n → x ≤ w → f * w + x ≤ n * w
marco_dentro f zero w x h h' = absurd (omega arith)
marco_dentro zero (suc n) w x h h' = omega (arith, h', suc_mul n w)
  where
    suc_mul : (n w : ℕ) → suc n * w ≡ n * w + w
    suc_mul n w = grind arith
marco_dentro (suc f) (suc n) w x h h' =
    let ih = marco_dentro f n w x (omega arith) h' in grind arith

resto_marco : (f r w : ℕ) → r < w → (f * w + r) % w ≡ r
resto_marco f r w h = grind arith

resto_menor : (a w : ℕ) → 0 < w → a % w < w
resto_menor a w h = grind arith

-- The CPU has the sizes of the memory, and neither a TLB nor a page cache.
pub record SinCache (c : Cpu) (m : Memoria) : Type 0 where
  pub tlb : c.tlb_entries ≡ 0
  pub cache : c.cache_entries ≡ 0
  pub pagina : c.page_size ≡ m.config.page_size
  pub entradas : c.entries_per_page ≡ m.config.entries_per_page
  pub niveles : c.number_of_levels ≡ m.config.number_of_levels

module _ (bytes_de : String → List ℕ) (acepta : Syscall → Bool) where
  pide :
      (pid f : ℕ) (entradas : List ℕ) (m m' : Memoria)
      → Accesos.obtener_marco_proceso (some (pid, entradas)) m ≡ some (m', contesta f)
      → pedir_marco_de_pagina (red_de_memoria bytes_de acepta) pid entradas m ≡ (m', some f)
  unfolding pedir_marco_de_pagina atender cuerpo_de
  pide pid f entradas m m' da = rw da refl

  manda :
      (pid direccion : ℕ) (dato : List ℕ) (m m' : Memoria)
      → Accesos.acceder_espacio_usuario_escritura
          (some (record { pid = pid; direccion_fisica = direccion; dato = dato }))
          m
        ≡ some (m', ok)
      → escribir_dato_memoria (red_de_memoria bytes_de acepta) (some direccion) dato pid m
        ≡ (m', true)
  unfolding escribir_dato_memoria atender aceptada
  manda pid direccion dato m m' da = rw da refl

  sin_tlb :
      (pv desplazamiento pid ahora f : ℕ) (entradas : List ℕ) (c : Cpu) (m m' : Memoria)
      → c.tlb_entries ≡ 0
      → pedir_marco_de_pagina (red_de_memoria bytes_de acepta) pid entradas m ≡ (m', some f)
      → pedir_direccion
          (servicio_de (red_de_memoria bytes_de acepta))
          pv
          desplazamiento
          pid
          entradas
          ahora
          (c, m)
        ≡ some ((c, m'), some (f * c.page_size + desplazamiento))
  unfolding pedir_direccion pide_marco con_respuesta conseguir_direccion_fisica
      traducir_logica_a_fisica
  sin_tlb pv desplazamiento pid ahora f entradas c m m' cero da =
      let no_ : ltb 0 c.tlb_entries ≡ false = ap (ltb 0) cero in rw (no_, da) refl

  escribe_en :
      (direccion pid ahora f : ℕ) (dato : List ℕ) (c : Cpu) (m m1 m' : Memoria)
      → divide_por_cero c ≡ false
      → c.tlb_entries ≡ 0
      → c.cache_entries ≡ 0
      → pedir_marco_de_pagina (red_de_memoria bytes_de acepta) pid (extraer direccion c).0 m
        ≡ (m1, some f)
      → escribir_dato_memoria
          (red_de_memoria bytes_de acepta)
          (some (f * c.page_size + (extraer direccion c).1))
          dato
          pid
          m1
        ≡ (m', true)
      → ejecutar_write
          (servicio_de (red_de_memoria bytes_de acepta))
          direccion
          dato
          pid
          ahora
          (c, m)
        ≡ some (c, m')
  unfolding ejecutar_write
  escribe_en direccion pid ahora f dato c m m1 m' entera cero sin da hace =
      let sin_cache : ltb 0 c.cache_entries ≡ false = ap (ltb 0) sin in
      let va =
        sin_tlb (extraer direccion c).2 (extraer direccion c).1 pid ahora f (extraer direccion c).0
          c m m1 cero da in
      rw (entera, sin_cache, va, hace) refl

  no_divide :
      (c : Cpu) (m : Memoria) (e : ℕ)
      → m.config.entries_per_page ≡ suc e
      → 0 < m.config.page_size
      → SinCache c m
      → divide_por_cero c ≡ false
  no_divide c m e entradas pos sin =
      let a : (c.page_size == 0) ≡ false = rw sin.pagina (ground arith) in
      let b : (c.entries_per_page == 0) ≡ false = rw (sin.entradas, entradas) (ground arith) in
      rw (a, b)
        (elim (Bool-cases (ltb 0 c.number_of_levels)) [
          | inl si ↦ rw si refl
          | inr no_ ↦ rw no_ refl
        ])

  mismas_entradas :
      (direccion : ℕ) (c : Cpu) (m : Memoria)
      → SinCache c m
      → ((extraer direccion c).0
          ≡ entradas_de
              (direccion / m.config.page_size)
              m.config.entries_per_page
              m.config.number_of_levels)
        × ((extraer direccion c).1 ≡ direccion % m.config.page_size)
  unfolding extraer_entradas_y_desplazamiento
  mismas_entradas direccion c m sin =
      (rw (sin.pagina, sin.entradas, sin.niveles) refl, rw sin.pagina refl)

  -- A process that has been stored, with two levels or more: a WRITE by a CPU of the same sizes,
  -- without a TLB and a page cache, to an address in one of its pages below page E * E, for E
  -- entries per page, of a datum that ends in that page, where the memory has a page for each
  -- frame, leaves the CPU as it was and puts the datum, and nothing else, in the bytes of a frame that was free
  -- before the process was stored and has been taken.
  pub ejecutar_write-Escrito :
      (pid n k e direccion ahora : ℕ) (frames dato : List ℕ) (c : Cpu) (m m' : Memoria)
      → Almacenado pid n frames m m'
      → m.config.number_of_levels ≡ suc (suc k)
      → m.config.entries_per_page ≡ suc e
      → 0 < m.config.page_size
      → direccion / m.config.page_size < n
      → direccion / m.config.page_size < suc e * suc e
      → direccion % m.config.page_size + length dato ≤ m.config.page_size
      → length m.bytes ≡ length m.marcos_ocupados * m.config.page_size
      → SinCache c m
      → (f : ℕ) × (m'' : Memoria) × (ejecutar_write
            (servicio_de (red_de_memoria bytes_de acepta))
            direccion
            dato
            pid
            ahora
            (c, m')
          ≡ some (c, m''))
        × (get_elem? m.marcos_ocupados f ≡ some false)
        × (get_elem? m'.marcos_ocupados f ≡ some true)
        × Escrito (f * m.config.page_size + direccion % m.config.page_size) dato m'.bytes m''.bytes
  ejecutar_write-Escrito pid n k e direccion ahora frames dato c m m' a niveles entradas pos lt ltt
        cabe justa sin =
      let w = m.config.page_size in
      let (f, m1, da, bytes, config, _, libre, tomado) =
        acceso_marco pid n k e (direccion / w) frames m m' a niveles entradas lt ltt in
      let d = f * w + direccion % w in
      let en = get_elem?_lt m.marcos_ocupados f false libre in
      let tam : m1.config.page_size ≡ w = ap (λ q. q.page_size) (config ∙ a.config) in
      let largo : length m1.bytes ≡ length m.marcos_ocupados * w =
        ap length (bytes ∙ a.bytes) ∙ justa in
      let r = direccion % w in
      let resto = resto_marco f r w (resto_menor direccion w pos) in
      let entra = marco_dentro f (length m.marcos_ocupados) w (r + length dato) en cabe in
      let fin : f * w + r + length dato ≤ length m.marcos_ocupados * w = omega (arith, entra) in
      let (m'', hecho, escrito) =
        escribe pid d dato m1 (rw tam pos) (rw tam (rw resto cabe)) (rw largo fin) in
      let (mismas, mismo) = mismas_entradas direccion c m sin in
      let da' : Accesos.obtener_marco_proceso (some (pid, (extraer direccion c).0)) m'
          ≡ some (m1, contesta f) =
        ap (λ q. Accesos.obtener_marco_proceso (some (pid, q)) m') mismas ∙ da in
      let sitio : f * c.page_size + (extraer direccion c).1 ≡ d =
        ap (λ q. f * q + (extraer direccion c).1) sin.pagina ∙ ap (λ q. f * w + q) mismo in
      let va : ejecutar_write (servicio_de (red_de_memoria bytes_de acepta)) direccion dato pid
            ahora (c, m')
          ≡ some (c, m'') =
        escribe_en direccion pid ahora f dato c m' m1 m'' (no_divide c m e entradas pos sin) sin.tlb
          sin.cache (pide pid f (extraer direccion c).0 m' m1 da')
          (ap (λ q. escribir_dato_memoria (red_de_memoria bytes_de acepta) (some q) dato pid m1)
              sitio
            ∙ manda pid d dato m1 m'' hecho) in
      (f, m'', va, libre, tomado, subst (λ q. Escrito d dato q m''.bytes) bytes escrito)
