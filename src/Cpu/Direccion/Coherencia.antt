-- ===== src/Cpu/Direccion/Coherencia.antt =====
-- A TLB that agrees with the memory module gives the addresses that the memory would give.
use conurban_os.Prelude.{
  en_append, en_set, ℕ, ◌<◌, ◌≡◌, refl, sym, ◌∙◌, ◌⊎◌, inl, inr, List, true, Option, none, some,
  arith, get_elem?, get_elem?_lt, get_elem?-set_self, get_elem?-set_ne, length-set, lt→ltb, ◌==◌,
  Bool-cases, Option-cases, some_inj, ℕ_discrete,
}
use conurban_os.Cpu.Mmu.{traducir_logica_a_fisica}
use conurban_os.Cpu.Tlb.{
  Algoritmo, fifo, lru, otro, TlbEntry, Tlb, renovar, buscar_marco_en_tlb, cargar_tlb,
  entrada_nueva,
}
use conurban_os.Cpu.Tlb.Validez.{
  IsValid, Conocido, cargar_tlb-Carga, agregar, agregar-IsValid, reemplazada, reemplazada-IsValid,
}
use conurban_os.Cpu.Direccion.{sellar, actualizar_timestamp, conseguir_direccion_fisica}

misma_pagina :
    (es : List TlbEntry) (i j : ℕ) (a b : TlbEntry)
    → get_elem? es i ≡ some a
    → get_elem? es j ≡ some b
    → i ≡ j
    → a.pagina ≡ b.pagina
misma_pagina es i j a b h k e = let k' : get_elem? es i ≡ some b = rw e k in ground arith

sellar-IsValid :
    (i ahora : ℕ) (e : TlbEntry) (t : Tlb)
    → get_elem? t.entries i ≡ some e
    → IsValid t
    → IsValid (sellar i e ahora t)
sellar-IsValid i ahora e t at v = record {
  indice = λ p j h. elim (ℕ_discrete i j) [
    | yes same ↦
        let (x, en_j, es_p) = v.indice p j h in
        let igual : e.pagina ≡ x.pagina = misma_pagina t.entries i j e x at en_j same in
        (
          record e { timestamp = ahora },
          rw (← same) (
              get_elem?-set_self t.entries i (record e { timestamp = ahora })
                (get_elem?_lt t.entries i e at)),
          igual ∙ es_p,
        )
    | no other ↦
        let (x, en_j, es_p) = v.indice p j h in
        (x, get_elem?-set_ne t.entries i j (record e { timestamp = ahora }) other ∙ en_j, es_p)
  ];
  con_lugar = omega (arith, length-set t.entries i (record e { timestamp = ahora }), v.con_lugar);
  puntero = v.puntero;
}

-- The memory as the frame of each page of each process.
module _ (memoria : ℕ → ℕ → Option ℕ) where
  abbrev pub Coherente : Tlb → Type 0
  Coherente t =
      (i : ℕ)
      → (e : TlbEntry) → get_elem? t.entries i ≡ some e
      → memoria e.pid e.pagina ≡ some e.marco

  sellar-Coherente :
      (i ahora : ℕ) (e : TlbEntry) (t : Tlb)
      → get_elem? t.entries i ≡ some e
      → Coherente t
      → Coherente (sellar i e ahora t)
  sellar-Coherente i ahora e t at c j x h =
      elim (en_set t.entries i j (record e { timestamp = ahora }) x h) [
        | inl igual ↦ rw (← igual) (c i e at)
        | inr antes ↦ c j x antes
      ]

  agregar-Coherente :
      (nueva : TlbEntry) (t : Tlb)
      → memoria nueva.pid nueva.pagina ≡ some nueva.marco
      → Coherente t
      → Coherente (agregar nueva t)
  unfolding agregar
  agregar-Coherente nueva t m c j x h = elim (en_append t.entries j nueva x h) [
    | inl igual ↦ rw (← igual) m
    | inr antes ↦ c j x antes
  ]

  reemplazada-Coherente :
      (nueva vieja : TlbEntry) (v : ℕ) (t : Tlb)
      → memoria nueva.pid nueva.pagina ≡ some nueva.marco
      → Coherente t
      → Coherente (reemplazada nueva vieja v t)
  unfolding reemplazada
  reemplazada-Coherente nueva vieja v t m c j x h = elim (en_set t.entries v j nueva x h) [
    | inl igual ↦ rw (← igual) m
    | inr antes ↦ c j x antes
  ]

  cargar-Coherente :
      (pv marco pid ahora : ℕ) (t : Tlb)
      → memoria pid pv ≡ some marco
      → Conocido t.algoritmo_reemplazo
      → IsValid t
      → Coherente t
      → (r : Tlb) × (cargar_tlb pv marco pid ahora t ≡ some (r, true)) × IsValid r × Coherente r
  cargar-Coherente pv marco pid ahora t m known v c =
      let nueva = entrada_nueva pv marco pid ahora in
      elim (cargar_tlb-Carga pv marco pid ahora t known v) [
        | inl (room, ok) ↦
            (agregar nueva t, ok, agregar-IsValid nueva t v room, agregar-Coherente nueva t m c)
        | inr (w, vieja, _, at_w, ok) ↦ (
          reemplazada nueva vieja w t,
          ok,
          reemplazada-IsValid nueva vieja w t v at_w,
          reemplazada-Coherente nueva vieja w t m c,
        )
      ]

  renovar_lem :
      (a : Algoritmo) (pv i ahora : ℕ) (e : TlbEntry) (t : Tlb)
      → t.pagina_index pv ≡ some i
      → get_elem? t.entries i ≡ some e
      → IsValid t
      → Coherente t
      → ((renovar a ahora i e t).pagina_index pv ≡ some i)
        × IsValid (renovar a ahora i e t)
        × Coherente (renovar a ahora i e t)
  unfolding renovar
  renovar_lem fifo pv i ahora e t idx at v c = (idx, v, c)
  renovar_lem lru pv i ahora e t idx at v c =
      (idx, sellar-IsValid i ahora e t at v, sellar-Coherente i ahora e t at c)
  renovar_lem otro pv i ahora e t idx at v c = (idx, v, c)

  actualizar_lem :
      (pv i ahora : ℕ) (t : Tlb)
      → t.pagina_index pv ≡ some i
      → IsValid t
      → Coherente t
      → (t' : Tlb) × (actualizar_timestamp pv ahora t ≡ some t') × IsValid t' × Coherente t'
  unfolding actualizar_timestamp
  actualizar_lem pv i ahora t idx v c =
      let (e, at, _) = v.indice pv i idx in
      (
        sellar i e ahora t,
        rw (actualizar_timestamp, idx, at) refl,
        sellar-IsValid i ahora e t at v,
        sellar-Coherente i ahora e t at c,
      )

-- A lookup misses and changes nothing, or it hits an entry of the page and the process.
abbrev Consulta : ℕ → ℕ → ℕ → Tlb → Type 0
Consulta pv pid ahora t =
    (buscar_marco_en_tlb pv pid ahora t ≡ some (t, none))
    ⊎ ((i : ℕ) × (e : TlbEntry) × (t.pagina_index pv ≡ some i)
        × (get_elem? t.entries i ≡ some e)
        × (e.pagina ≡ pv)
        × (e.pid ≡ pid)
        × (buscar_marco_en_tlb pv pid ahora t
            ≡ some (renovar t.algoritmo_reemplazo ahora i e t, some e.marco)))

consulta : (pv pid ahora : ℕ) (t : Tlb) → IsValid t → Consulta pv pid ahora t
unfolding buscar_marco_en_tlb
consulta pv pid ahora t v = elim (Option-cases (t.pagina_index pv)) [
  | inl nada ↦ inl (rw (buscar_marco_en_tlb, nada) refl)
  | inr (i, idx) ↦
      let (e, at, es_p) = v.indice pv i idx in
      elim (Bool-cases (e.pid == pid)) [
        | inl mio ↦
            inr (
              i,
              e,
              idx,
              at,
              es_p,
              ground (arith, mio),
              rw (buscar_marco_en_tlb, idx, at, mio) refl,
            )
        | inr ajeno ↦ inl (rw (buscar_marco_en_tlb, idx, at, ajeno) refl)
      ]
]

module _ (memoria : ℕ → ℕ → Option ℕ) where
  -- With a TLB in use that is valid and agrees with the memory, and a page that the memory has in a
  -- frame: whether the lookup hits or misses, the address is the one in that frame, and the TLB
  -- stays valid and in agreement.
  pub conseguir-Coherente :
      (tlb_entries page_size pv desplazamiento pid ahora marco : ℕ) (t : Tlb)
      → 0 < tlb_entries
      → Conocido t.algoritmo_reemplazo
      → IsValid t
      → Coherente memoria t
      → memoria pid pv ≡ some marco
      → (t' : Tlb) × (conseguir_direccion_fisica tlb_entries page_size
            (memoria pid pv)
            pv
            desplazamiento
            pid
            ahora
            t
          ≡ some (t', some (traducir_logica_a_fisica marco desplazamiento page_size)))
        × IsValid t'
        × Coherente memoria t'
  unfolding conseguir_direccion_fisica
  conseguir-Coherente tlb_entries page_size pv desplazamiento pid ahora marco t en_uso known v c m =
      let usa = lt→ltb 0 tlb_entries en_uso in
      elim (consulta pv pid ahora t v) [
        | inl falta ↦
            let (t', ok, v', c') = cargar-Coherente memoria pv marco pid ahora t m known v c in
            (t', rw (conseguir_direccion_fisica, usa, falta, m, ok) refl, v', c')
        | inr (i, e, idx, at, es_p, es_pid, halla) ↦
            let (idx', v1, c1) =
              renovar_lem memoria t.algoritmo_reemplazo pv i ahora e t idx at v c in
            let (t', ok, v', c') =
              actualizar_lem memoria pv i ahora (renovar t.algoritmo_reemplazo ahora i e t) idx' v1
                c1 in
            let mismo : e.marco ≡ marco = some_inj (sym (c i e at) ∙ rw (es_p, es_pid) m) in
            (t', rw (conseguir_direccion_fisica, usa, halla, ok, mismo) refl, v', c')
      ]
