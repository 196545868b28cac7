-- ===== src/Cpu/Direccion.antt =====
-- ConseguirDireccionFisica of cpu/utils/utils.go. `respuesta` is what PedirMarcoDePagina gives: the
-- frame that the memory module answers, or `none` for an error of the request. The readings of the
-- clock within one call are taken to be the same.
pub mod Coherencia
use conurban_os.Prelude.{ℕ, Option, none, some, ◌>>=◌, ltb, if◌then◌else◌, get_elem?, set}
use mathlib.Core.Option
use conurban_os.Cpu.Mmu.{traducir_logica_a_fisica}
use conurban_os.Cpu.Tlb.{TlbEntry, Tlb, buscar_marco_en_tlb, cargar_tlb}

abbrev pub sellar : ℕ → TlbEntry → ℕ → Tlb → Tlb
sellar i e ahora t = record t { entries = set t.entries i (record e { timestamp = ahora }) }

-- After a hit the timestamp is set under every algorithm.
unfoldable pub actualizar_timestamp : ℕ → ℕ → Tlb → Option Tlb
actualizar_timestamp pagina_virtual ahora t = elim (t.pagina_index pagina_virtual) [
  | none ↦ some t
  | some i ↦ elim (get_elem? t.entries i) [ none ↦ none | some e ↦ some (sellar i e ahora t) ]
]

-- The address; `none` in the pair is the error of the request. The error of CargarTLB is dropped.
unfoldable pub conseguir_direccion_fisica :
    ℕ → ℕ → Option ℕ → ℕ → ℕ → ℕ → ℕ → Tlb → Option (Tlb × Option ℕ)
unfolding actualizar_timestamp
conseguir_direccion_fisica tlb_entries page_size respuesta pagina_virtual desplazamiento pid ahora
      t =
    if ltb 0 tlb_entries
    then (elim (buscar_marco_en_tlb pagina_virtual pid ahora t) [
      | none ↦ none
      | some (t1, some marco) ↦ do
        t2 ← actualizar_timestamp pagina_virtual ahora t1
        some (t2, some (traducir_logica_a_fisica marco desplazamiento page_size))
      | some (t1, none) ↦ elim respuesta [
        | none ↦ some (t1, none)
        | some marco ↦ do
          (t2, _) ← cargar_tlb pagina_virtual marco pid ahora t1
          some (t2, some (traducir_logica_a_fisica marco desplazamiento page_size))
      ]
    ])
    else some
        (t, Option.map (λ marco. traducir_logica_a_fisica marco desplazamiento page_size) respuesta)
