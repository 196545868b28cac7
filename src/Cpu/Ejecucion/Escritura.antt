-- ===== src/Cpu/Ejecucion/Escritura.antt =====
-- READ and WRITE without a page cache, over a TLB that agrees with the memory.
use conurban_os.Prelude.{
  ℕ, ◌+◌, ◌*◌, ◌/◌, ◌%◌, ◌<◌, ◌≡◌, refl, ap, ◌∙◌, ◌⊎◌, inl, inr, List, false, Option, none, some,
  Bool-cases, Option-cases, arith, ltb,
}
use conurban_os.Cpu.Mmu.{extraer_entradas_y_desplazamiento, traducir_logica_a_fisica}
use conurban_os.Cpu.Tlb.{Tlb, buscar_marco_en_tlb}
use conurban_os.Cpu.Tlb.Validez.{IsValid, Conocido}
use conurban_os.Cpu.Direccion.{conseguir_direccion_fisica}
use conurban_os.Cpu.Direccion.Coherencia.{Coherente, conseguir-Coherente}
use conurban_os.Cpu.Entorno.{Cpu, Servicio}
use conurban_os.Cpu.Ejecucion.{
  pide_marco, divide_por_cero, extraer, pedir_direccion, con_respuesta, ejecutar_write,
  ejecutar_read,
}

-- Where the frame is not asked for, its answer is not used.
respuesta_indiferente :
    (r r' : Option ℕ) (pv desplazamiento pid ahora : ℕ) (c : Cpu)
    → pide_marco pv pid ahora c ≡ false
    → conseguir_direccion_fisica c.tlb_entries c.page_size r pv desplazamiento pid ahora c.tlb
      ≡ conseguir_direccion_fisica c.tlb_entries c.page_size r' pv desplazamiento pid ahora c.tlb
unfolding conseguir_direccion_fisica pide_marco
respuesta_indiferente r r' pv desplazamiento pid ahora c h =
    elim (Bool-cases (ltb 0 c.tlb_entries)) [
      | inr no_ ↦ absurd (let h' = rw no_ at h in ground arith)
      | inl si ↦ elim (Option-cases (buscar_marco_en_tlb pv pid ahora c.tlb)) [
        | inl falla ↦ rw (si, falla) refl
        | inr ((t, none), halla) ↦ absurd (let h' = rw (si, halla) at h in ground arith)
        | inr ((t, some marco), halla) ↦ rw (si, halla) refl
      ]
    ]

module _ (s : Servicio) (memoria : ℕ → ℕ → Option ℕ) where
  -- The state of the others after the request for the frame, or where there was none.
  abbrev pub TrasPedido : ℕ → List ℕ → s.Externo → s.Externo → Type 0
  TrasPedido pid entradas m m' = (m ≡ m') ⊎ ((s.pedir_marco pid entradas m).0 ≡ m')

  con_respuesta_lem :
      (pv desplazamiento pid ahora : ℕ) (c : Cpu) (r : s.Externo × Option ℕ) {t : Tlb}
      {direccion : Option ℕ}
      → conseguir_direccion_fisica c.tlb_entries c.page_size r.1 pv desplazamiento pid ahora c.tlb
        ≡ some (t, direccion)
      → con_respuesta s pv desplazamiento pid ahora c r
        ≡ some ((record c { tlb = t }, r.0), direccion)
  unfolding con_respuesta
  con_respuesta_lem pv desplazamiento pid ahora c r da = rw da refl

  pedir_direccion_lem :
      (pv desplazamiento pid ahora marco : ℕ) (entradas : List ℕ) (c : Cpu) (m : s.Externo)
      → 0 < c.tlb_entries
      → Conocido c.tlb.algoritmo_reemplazo
      → IsValid c.tlb
      → Coherente memoria c.tlb
      → memoria pid pv ≡ some marco
      → (s.pedir_marco pid entradas m).1 ≡ some marco
      → (t : Tlb) × (m' : s.Externo) × (pedir_direccion s pv desplazamiento pid entradas ahora
            (c, m)
          ≡ some (
            (record c { tlb = t }, m'),
            some (traducir_logica_a_fisica marco desplazamiento c.page_size),
          ))
        × TrasPedido pid entradas m m'
        × IsValid t
        × Coherente memoria t
  unfolding pedir_direccion
  pedir_direccion_lem pv desplazamiento pid ahora marco entradas c m usa conoce v coh hay pide =
      let (t, da, v', coh') =
        conseguir-Coherente memoria c.tlb_entries c.page_size pv desplazamiento pid ahora marco
          c.tlb usa conoce v coh hay in
      elim (Bool-cases (pide_marco pv pid ahora c)) [
        | inl si ↦ (
          t,
          (s.pedir_marco pid entradas m).0,
          rw si (
              con_respuesta_lem pv desplazamiento pid ahora c (s.pedir_marco pid entradas m)
                (rw pide (rw hay at da))),
          inr refl,
          v',
          coh',
        )
        | inr no_ ↦ (
          t,
          m,
          rw no_ (
              con_respuesta_lem pv desplazamiento pid ahora c (m, none)
                (respuesta_indiferente none (memoria pid pv) pv desplazamiento pid ahora c no_
                  ∙ da)),
          inl refl,
          v',
          coh',
        )
      ]

  -- Without a page cache, with a TLB in use that is valid and agrees with the memory, where the
  -- memory has the page of the address in a frame and answers so, READ and WRITE return: each makes
  -- one access, at the address in that frame, and the TLB stays valid and in agreement.
  pub ejecutar_write-Directa :
      (direccion_log pid ahora marco tamanio : ℕ) (dato detras : List ℕ) (c : Cpu) (m : s.Externo)
      → c.cache_entries ≡ 0
      → divide_por_cero c ≡ false
      → 0 < c.tlb_entries
      → Conocido c.tlb.algoritmo_reemplazo
      → IsValid c.tlb
      → Coherente memoria c.tlb
      → memoria pid (direccion_log / c.page_size) ≡ some marco
      → (s.pedir_marco pid (extraer direccion_log c).0 m).1 ≡ some marco
      → (t : Tlb) × (m' : s.Externo) × (ejecutar_write s direccion_log dato pid ahora (c, m)
          ≡ some (
            record c { tlb = t },
            (s.escribir_dato
                (some (marco * c.page_size + direccion_log % c.page_size))
                dato
                pid
                m').0,
          ))
        × (ejecutar_read s detras direccion_log tamanio pid ahora (c, m)
            ≡ some (
              record c { tlb = t },
              (s.leer_dato
                  (some (marco * c.page_size + direccion_log % c.page_size))
                  tamanio
                  pid
                  m').0,
            ))
        × TrasPedido pid (extraer direccion_log c).0 m m'
        × IsValid t
        × Coherente memoria t
  unfolding ejecutar_write ejecutar_read extraer_entradas_y_desplazamiento traducir_logica_a_fisica
  ejecutar_write-Directa direccion_log pid ahora marco tamanio dato detras c m sin entera usa conoce
        v coh hay pide =
      let sin_cache : ltb 0 c.cache_entries ≡ false = ap (ltb 0) sin in
      let (t, m', da, tras, v', coh') =
        pedir_direccion_lem (extraer direccion_log c).2 (extraer direccion_log c).1 pid ahora marco
          (extraer direccion_log c).0 c m usa conoce v coh hay pide in
      (t, m', rw (entera, sin_cache, da) refl, rw (entera, sin_cache, da) refl, tras, v', coh')
