-- ===== src/Cpu/Tlb/Consulta.antt =====
-- What a lookup answers after a load, and which entry LRU gives up.
use conurban_os.Prelude.{
  append_ultimo, length, ℕ, ◌≡◌, refl, inl, inr, true, Option, some, get_elem?, get_elem?_lt,
  get_elem?-set_self, borrar, poner_self, ==_self, ◌==◌,
}
use conurban_os.Cpu.Tlb.{TlbEntry, Tlb, cargar_tlb, renovar, buscar_marco_en_tlb, entrada_nueva}
use conurban_os.Cpu.Tlb.Validez.{IsValid, Conocido, cargar_tlb-Carga, agregar, reemplazada}

-- The lookup as a question: the frame that it answers.
abbrev pub Responde : ℕ → ℕ → ℕ → Tlb → Option ℕ → Type 0
Responde p pid ahora t r = (t' : Tlb) × (buscar_marco_en_tlb p pid ahora t ≡ some (t', r))

acierta :
    (p pid ahora i : ℕ) (e : TlbEntry) (t : Tlb)
    → t.pagina_index p ≡ some i
    → get_elem? t.entries i ≡ some e
    → (e.pid == pid) ≡ true
    → buscar_marco_en_tlb p pid ahora t
      ≡ some (renovar t.algoritmo_reemplazo ahora i e t, some e.marco)
unfolding buscar_marco_en_tlb
acierta p pid ahora i e t idx at_i mine = rw (buscar_marco_en_tlb, idx, at_i, mine) refl

-- Under FIFO and LRU, a load into a valid TLB succeeds and is found by the next lookup of its process and page, with the frame
-- that was loaded.
pub buscar-cargar_tlb :
    (pv marco pid ahora despues : ℕ) (t : Tlb)
    → Conocido t.algoritmo_reemplazo
    → IsValid t
    → (t' : Tlb) × (cargar_tlb pv marco pid ahora t ≡ some (t', true))
      × Responde pv pid despues t' (some marco)
unfolding agregar reemplazada
buscar-cargar_tlb pv marco pid ahora despues t known h =
    let nueva = entrada_nueva pv marco pid ahora in
    elim (cargar_tlb-Carga pv marco pid ahora t known h) [
      | inl (room, ok) ↦ (
        agregar nueva t,
        ok,
        (
          renovar t.algoritmo_reemplazo despues (length t.entries) nueva (agregar nueva t),
          acierta pv pid despues (length t.entries) nueva (agregar nueva t)
              (poner_self t.pagina_index pv (length t.entries)) (append_ultimo t.entries nueva)
              (==_self pid),
        ),
      )
      | inr (v, vieja, _, at_v, ok) ↦ (
        reemplazada nueva vieja v t,
        ok,
        (
          renovar t.algoritmo_reemplazo despues v nueva (reemplazada nueva vieja v t),
          acierta pv pid despues v nueva (reemplazada nueva vieja v t)
              (poner_self (borrar t.pagina_index vieja.pagina) pv v)
              (get_elem?-set_self t.entries v nueva (get_elem?_lt t.entries v vieja at_v))
              (==_self pid),
        ),
      )
    ]
