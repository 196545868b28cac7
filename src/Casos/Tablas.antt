-- ===== src/Casos/Tablas.antt =====
-- Page tables and address translation at concrete inputs.
use conurban_os.Prelude.{ℕ, ◌<◌, ◌≡◌, List, [], ◌∷◌, none, some, arith, refl}
use conurban_os.Memoria.Estado.{TablaPaginas}
use conurban_os.Memoria.Tabla.{crear_tabla, marco_en, marco}
use conurban_os.Memoria.Tabla.Recorrido.{marco_en-crear_tabla}
use conurban_os.Memoria.Tabla.Fallas.{marco_en-panic}
use conurban_os.Cpu.Mmu.{potencia, entradas_de}

abbrev frames : List ℕ
frames = 7 ∷ 4 ∷ 9 ∷ 1 ∷ 0 ∷ 2 ∷ []

marco_en-crear_tabla_example :
    (t : TablaPaginas) × (crear_tabla 3 2 frames ≡ some t)
    × (marco_en 3 t (entradas_de 2 2 3) ≡ some (marco 9))
marco_en-crear_tabla_example = marco_en-crear_tabla 1 frames 2 9 1 (omega arith) refl

en_rango : 5 < potencia 2 3
unfolding potencia
en_rango = omega arith

marco_en-panic_example :
    (t : TablaPaginas) × (crear_tabla 3 2 frames ≡ some t)
    × (marco_en 3 t (entradas_de 5 2 3) ≡ none)
marco_en-panic_example = marco_en-panic 1 frames 0 5 (omega arith) en_rango (omega arith)
