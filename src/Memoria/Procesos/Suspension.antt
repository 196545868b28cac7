-- ===== src/Memoria/Procesos/Suspension.antt =====
-- What suspending a process leaves of its swap start.
use conurban_os.Prelude.{
  ℕ, suc, ◌≡◌, refl, inl, inr, Bool, true, some, arith, get_elem?, poner, poner_self, Option-cases,
  Bool-cases,
}
use conurban_os.Memoria.Estado.{Memoria, Proceso, proceso_de, Metrica, incrementar_metrica}
use conurban_os.Memoria.Liberar.{eliminar_marcos_fisicos}
use conurban_os.Memoria.Swap.{escribir_en_swap, eliminar_paginas_swap, leer_pagina_swap}
use conurban_os.Memoria.Procesos.{suspender_proceso, ok}

procesos-incrementar :
    (x : Metrica) (pid n : ℕ) (m : Memoria) → (incrementar_metrica x pid n m).procesos ≡ m.procesos
unfolding incrementar_metrica
procesos-incrementar x pid n m = refl

abbrev marcado : ℕ → Memoria → Proceso
marcado pid m = record (proceso_de m pid) { suspendido = true }

proceso-guardado :
    (pid : ℕ) (p : Proceso) (m : Memoria)
    → proceso_de
        (incrementar_metrica Metrica.bajadas_swap pid 1
          (record m { procesos = poner m.procesos pid p }))
        pid
      ≡ p
unfolding incrementar_metrica
proceso-guardado pid p m = rw (poner_self m.procesos pid p) refl

-- A suspension that is answered ok leaves the entry of the process as it was but for its flag:
-- the start of its pages in the swap file is the one from before.
pub suspender_proceso-proceso :
    (abre : Bool) (pid : ℕ) (m : Memoria) {m' : Memoria}
    → suspender_proceso abre (some pid) m ≡ some (m', ok)
    → proceso_de m' pid ≡ record (proceso_de m pid) { suspendido = true }
unfolding suspender_proceso
suspender_proceso-proceso abre pid m {m'} h = elim (Option-cases (eliminar_marcos_fisicos pid m)) [
  | inl e ↦ absurd (ground arith)
  | inr (s, e) ↦ elim (Option-cases (escribir_en_swap abre pid s.1 s.0)) [
    | inl e' ↦ absurd (ground arith)
    | inr (r, e') ↦ elim (Bool-cases r.1) [
      | inr no_escrito ↦ absurd (ground arith)
      | inl escrito ↦
          let fin : m'
              ≡ incrementar_metrica Metrica.bajadas_swap pid 1
                  (record r.0 { procesos = poner r.0.procesos pid (marcado pid m) }) =
            ground arith in
          rw fin (proceso-guardado pid (marcado pid m) r.0)
    ]
  ]
]

-- After a suspension answered ok of a process with pages, the first page that is taken from the
-- open swap file is read at the start that the process had before the suspension.
pub suspender-eliminar_paginas :
    (abre : Bool) (pid n : ℕ) (m : Memoria) {m' : Memoria}
    → suspender_proceso abre (some pid) m ≡ some (m', ok)
    → (proceso_de m pid).cantidad_de_paginas ≡ suc n
    → get_elem? (eliminar_paginas_swap true pid m').1 0
      ≡ some (record {
        numero_de_pagina = 0;
        contenido =
            leer_pagina_swap m'.config.page_size (proceso_de m pid).inicio_swap 0 m'.archivo_swap;
      })
unfolding eliminar_paginas_swap
suspender-eliminar_paginas abre pid n m h paginas =
    let igual = suspender_proceso-proceso abre pid m h in
    rw (igual, eliminar_paginas_swap, paginas) refl
