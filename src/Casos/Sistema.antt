-- ===== src/Casos/Sistema.antt =====
-- A WRITE through the CPU and the memory at a concrete input.
use conurban_os.Prelude.{ℕ, ◌+◌, ◌*◌, ◌≡◌, refl, [], ◌∷◌, true, false, some, arith, get_elem?}
use conurban_os.Memoria.Estado.{Memoria}
use conurban_os.Memoria.Bytes.Escritura.{Escrito}
use conurban_os.Cpu.Entorno.{Cpu}
use conurban_os.Cpu.Ejecucion.{ejecutar_write}
use conurban_os.Cpu.Pedidos.{servicio_de}
use conurban_os.Sistema.{red_de_memoria}
use conurban_os.Sistema.Escritura.{ejecutar_write-Escrito}
use conurban_os.Casos.Marcos.{vacia, guardado}
use conurban_os.Casos.Instrucciones.{cpu}

abbrev sin_tlb : Cpu
sin_tlb = record cpu { tlb_entries = 0 }

-- Two bytes at the address 9 of process 1.
ejecutar_write-Escrito_example :
    (f : ℕ) × (m'' : Memoria) × (ejecutar_write
        (servicio_de (red_de_memoria (λ s. []) (λ l. true)))
        9
        (66 ∷ 67 ∷ [])
        1
        5
        (sin_tlb, guardado.0)
      ≡ some (sin_tlb, m''))
    × (get_elem? vacia.marcos_ocupados f ≡ some false)
    × (get_elem? guardado.0.marcos_ocupados f ≡ some true)
    × Escrito (f * 4 + 1) (66 ∷ 67 ∷ []) guardado.0.bytes m''.bytes
ejecutar_write-Escrito_example =
    ejecutar_write-Escrito (λ s. []) (λ l. true) 1 3 0 1 9 5 guardado.1 (66 ∷ 67 ∷ []) sin_tlb vacia
      guardado.0 guardado.2 refl refl (omega arith) (omega arith) (omega arith) (omega arith) refl
      (record { tlb = refl; cache = refl; pagina = refl; entradas = refl; niveles = refl })
