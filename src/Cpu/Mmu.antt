-- ===== src/Cpu/Mmu.antt =====
-- Address translation: ExtraerEntradasYDesplazamiento and TraducirLogicaAFisica in
-- cpu/utils/utils.go. Addresses and sizes are non-negative and do not overflow int64; a page size
-- or a number of entries of 0, at which Go panics, is excluded by the theorems.
use conurban_os.Prelude.{ℕ, zero, suc, ◌+◌, ◌*◌, ◌/◌, ◌%◌, ◌≡◌, refl, List, [], ◌∷◌}

-- The inner loop: `exp` is multiplied by `cantEntradasTabla` once for each round.
unfoldable pub potencia : ℕ → ℕ → ℕ
potencia cant_entradas_tabla zero = 1
potencia cant_entradas_tabla (suc rondas) =
    potencia cant_entradas_tabla rondas * cant_entradas_tabla

-- The outer loop, over the levels that are left: the level x of N has N - x of them below it.
unfoldable pub entradas_de : ℕ → ℕ → ℕ → List ℕ
unfolding potencia
entradas_de nro_pagina cant_entradas_tabla zero = []
entradas_de nro_pagina cant_entradas_tabla (suc restantes) =
    ((nro_pagina / potencia cant_entradas_tabla restantes) % cant_entradas_tabla)
    ∷ entradas_de nro_pagina cant_entradas_tabla restantes

-- The indices of each level, the offset and the page number.
unfoldable pub extraer_entradas_y_desplazamiento : ℕ → ℕ → ℕ → ℕ → List ℕ × ℕ × ℕ
unfolding entradas_de
extraer_entradas_y_desplazamiento direccion_logica tamanio_pagina cant_entradas_tabla niveles =
    let nro_pagina = direccion_logica / tamanio_pagina in
    (
      entradas_de nro_pagina cant_entradas_tabla niveles,
      direccion_logica % tamanio_pagina,
      nro_pagina,
    )

unfoldable pub traducir_logica_a_fisica : ℕ → ℕ → ℕ → ℕ
traducir_logica_a_fisica marco desplazamiento tamanio_pagina =
    marco * tamanio_pagina + desplazamiento

pub extraer_lem :
    (direccion w e n : ℕ)
    → extraer_entradas_y_desplazamiento direccion w e n
      ≡ (entradas_de (direccion / w) e n, direccion % w, direccion / w)
unfolding extraer_entradas_y_desplazamiento
extraer_lem direccion w e n = refl
