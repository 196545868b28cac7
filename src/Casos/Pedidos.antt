-- ===== src/Casos/Pedidos.antt =====
-- Reads, writes and the handlers of processes at concrete inputs.
use conurban_os.Prelude.{
  ◌+◌, ◌%◌, ◌≡◌, ◌<◌, ◌≤◌, ◌⊎◌, List, [], ◌∷◌, true, false, Option, none, some, arith, refl,
  get_elem?, ◌==◌, poner,
}
use conurban_os.Memoria.Estado.{
  Memoria, tabla, fin, entrada, pagina, siguiente_nivel, proceso_de, Pagina, incrementar_metrica,
}
use conurban_os.Memoria.Bytes.{leer, escribir, string_de_byte}
use conurban_os.Memoria.Bytes.Escritura.{Escrito, escribir_lem}
use conurban_os.Memoria.Bytes.Lectura.{leer-escribir, leer-length-lt}
use conurban_os.Memoria.Liberar.{eliminar_marcos_fisicos, liberar_marco}
use conurban_os.Memoria.Liberar.Efecto.{Cabe, Liberado, frames_de, eliminar_marcos-Liberado}
use conurban_os.Memoria.Swap.{escribir_en_swap, eliminar_paginas_swap, leer_pagina_swap}
use conurban_os.Memoria.Procesos.{suspender_proceso, ok}
use conurban_os.Memoria.Procesos.Suspension.{suspender_proceso-proceso, suspender-eliminar_paginas}
use conurban_os.Casos.Marcos.{vacia}

-- Process 1 has its two pages in the frames 0 and 3, of four bytes each.
abbrev cargada : Memoria
cargada = record vacia {
  procesos =
      poner (λ pid. none) 1
        (record {
          pseudocodigo = [];
          suspendido = false;
          tabla_de_paginas = tabla (
              entrada (siguiente_nivel (tabla (entrada (pagina 0 0) (entrada (pagina 1 3) fin))))
                fin);
          inicio_swap = 0;
          cantidad_de_paginas = 2;
        });
  procesos_mutex = λ pid. 1 == pid;
}

abbrev o_vacia {ℓ} : {A : Type ℓ} → Option (Memoria × A) → Memoria
o_vacia none = vacia
o_vacia (some (m, _)) = m

abbrev escrita : Memoria
escrita = o_vacia (escribir 5 (72 ∷ 73 ∷ []) vacia)

escribe : escribir 5 (72 ∷ 73 ∷ []) vacia ≡ some (escrita, true)
unfolding escribir
escribe = refl

escribir_lem_example :
    ((true ≡ false) × (escrita ≡ vacia) × (4 < 5 % 4 + 2))
    ⊎ ((true ≡ true)
        × (5 % 4 + 2 ≤ 4)
        × (escrita ≡ record vacia { bytes = escrita.bytes })
        × Escrito 5 (72 ∷ 73 ∷ []) vacia.bytes escrita.bytes)
escribir_lem_example = escribir_lem 5 (72 ∷ 73 ∷ []) vacia escribe

leer-escribir_example : leer 5 2 escrita.bytes ≡ some (72 ∷ 73 ∷ [])
leer-escribir_example =
    leer-escribir 5 (72 ∷ 73 ∷ []) vacia (omega arith, (omega arith, tt)) escribe

leido : leer 0 2 (65 ∷ 200 ∷ []) ≡ some (65 ∷ 195 ∷ 136 ∷ [])
unfolding leer string_de_byte
leido = refl

leer-length-lt_example : 2 < 3
leer-length-lt_example =
    leer-length-lt 2 0 1 200 (65 ∷ 200 ∷ []) (65 ∷ 195 ∷ 136 ∷ []) leido (omega arith) (omega arith)
      refl (omega arith)

cabe : Cabe cargada
cabe = omega arith

eliminar_marcos-Liberado_example :
    (m' : Memoria) × (paginas : List Pagina) × (eliminar_marcos_fisicos 1 cargada
      ≡ some (m', paginas))
    × Liberado (frames_de (proceso_de cargada 1).tabla_de_paginas) cargada m'
unfolding poner
eliminar_marcos-Liberado_example = eliminar_marcos-Liberado 1 cargada cabe refl

abbrev suspendida : Memoria
suspendida = o_vacia (suspender_proceso true (some 1) cargada)

suspende : suspender_proceso true (some 1) cargada ≡ some (suspendida, ok)
unfolding suspender_proceso poner eliminar_marcos_fisicos liberar_marco incrementar_metrica
    escribir_en_swap
suspende = refl

suspender_proceso-proceso_example :
    proceso_de suspendida 1 ≡ record (proceso_de cargada 1) { suspendido = true }
suspender_proceso-proceso_example = suspender_proceso-proceso true 1 cargada suspende

dos_paginas : (proceso_de cargada 1).cantidad_de_paginas ≡ 2
unfolding poner
dos_paginas = refl

suspender-eliminar_paginas_example :
    get_elem? (eliminar_paginas_swap true 1 suspendida).1 0
    ≡ some (record {
      numero_de_pagina = 0;
      contenido =
          leer_pagina_swap suspendida.config.page_size
            (proceso_de cargada 1).inicio_swap
            0
            suspendida.archivo_swap;
    })
suspender-eliminar_paginas_example =
    suspender-eliminar_paginas true 1 1 cargada suspende dos_paginas
