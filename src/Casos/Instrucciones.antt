-- ===== src/Casos/Instrucciones.antt =====
-- The instructions of the CPU at concrete inputs.
use conurban_os.Prelude.{
  ℕ, suc, ◌≡◌, refl, List, [], ◌∷◌, Bool, true, false, Option, some, none, arith,
}
use conurban_os.Cpu.Tlb.{Tlb, fifo, nueva_tlb}
use conurban_os.Cpu.Tlb.Validez.{IsValid, Conocido}
use conurban_os.Cpu.Cache.{Cache, clock}
use conurban_os.Cpu.Instruccion.{
  InstruccionDecodificada, goto, io, operacion, parse_int, decode, split_n, parametros_de,
  nombre_de, split, trim_left, trim_right, admitir, buscar_operacion, igual, numero, digitos,
}
use conurban_os.Cpu.Instruccion.Impresion.{decode-imprimir, imprimir}
use conurban_os.Cpu.Entorno.{Pcb, Cpu, Servicio}
use conurban_os.Cpu.Ejecucion.{
  ResultadoEjecucion, ponerse_espera, execute, traer_a_cache, ejecutar_write, ejecutar_read,
}
use conurban_os.Cpu.Ejecucion.Saltos.{Saltada, execute-Saltada}
use conurban_os.Cpu.Ejecucion.Escritura.{TrasPedido, ejecutar_write-Directa}
use conurban_os.Cpu.Ejecucion.Fallas.{traer_a_cache-ajena}
use conurban_os.Cpu.Mmu.{extraer_entradas_y_desplazamiento, entradas_de, potencia}
use conurban_os.Cpu.Direccion.Coherencia.{Coherente}
use conurban_os.Cpu.Ciclo.{
  recibir_interrupcion, responder_interrupcion, chequear_interrupcion, resolver,
}
use conurban_os.Cpu.Ciclo.Interrupcion.{resolver-perdida, responder-carrera}

-- The text "IO DISCO 500".
abbrev pide_disco : List ℕ
pide_disco = imprimir io ((68 ∷ 73 ∷ 83 ∷ 67 ∷ 79 ∷ []) ∷ (53 ∷ 48 ∷ 48 ∷ []) ∷ [])

decode-imprimir_example :
    decode pide_disco
    ≡ some (record {
      nombre = 73 ∷ 79 ∷ [];
      parametros = (68 ∷ 73 ∷ 83 ∷ 67 ∷ 79 ∷ []) ∷ (53 ∷ 48 ∷ 48 ∷ []) ∷ [];
    })
decode-imprimir_example =
    decode-imprimir io ((68 ∷ 73 ∷ 83 ∷ 67 ∷ 79 ∷ []) ∷ (53 ∷ 48 ∷ 48 ∷ []) ∷ []) refl
      (λ z. cc, refl, (λ z. cc, refl, tt))

-- The text "GOTO (12)".
abbrev salta : List ℕ
salta = 71 ∷ 79 ∷ 84 ∷ 79 ∷ 32 ∷ 40 ∷ 49 ∷ 50 ∷ 41 ∷ []

abbrev saltado : InstruccionDecodificada
saltado = record { nombre = nombre_de goto; parametros = (49 ∷ 50 ∷ []) ∷ [] }

se_decodifica : decode salta ≡ some saltado
unfolding decode split_n parametros_de split trim_left trim_right admitir operacion buscar_operacion
    igual
se_decodifica = refl

-- A memory that has every page in frame 5, and keeps what it was asked to write.
abbrev prueba : Servicio
prueba = record {
  Externo = List ℕ;
  solicitar_instruccion = λ pid pc m. (m, some salta);
  pedir_marco = λ pid entradas m. (m, some 5);
  leer_pagina = λ direccion m. (m, some (1 ∷ 2 ∷ 3 ∷ 4 ∷ []));
  escribir_dato = λ direccion dato pid m. (dato, true);
  leer_dato = λ direccion tamanio pid m. (m, some m);
  actualizar_pagina = λ pid direccion contenido m. (contenido, true);
  syscall = λ llamada m. (m, true);
}

-- One that refuses every frame.
abbrev sin_marcos : Servicio
sin_marcos = record prueba { pedir_marco = λ pid entradas m. (m, none) }

abbrev cache_vacia : Cache
cache_vacia = record {
  entries = [];
  pagina_index = λ p. none;
  capacidad = 2;
  algoritmo_reemplazo = clock;
  clock_hand = 0;
}

abbrev pub cpu : Cpu
cpu = record {
  tlb_entries = 2;
  cache_entries = 0;
  page_size = 4;
  entries_per_page = 2;
  number_of_levels = 2;
  nombre_cpu = 65 ∷ [];
  tlb = nueva_tlb 2 fifo;
  el_cache = cache_vacia;
  envie_syscall_bloqueante = false;
  hay_interrupcion = false;
  pc_interrupcion = none;
  esperando = 0;
  cola_de_ejecucion = [];
}

abbrev pcb : Pcb
pcb = record { pid = 3; pc = 7 }

vale_doce : parse_int (49 ∷ 50 ∷ []) ≡ some 12
unfolding parse_int numero digitos
vale_doce = refl

es_goto : operacion (nombre_de goto) ≡ some goto
unfolding operacion buscar_operacion igual
es_goto = refl

execute-Saltada_example :
    (c' : Cpu) × (m' : List ℕ) × (pcb' : Pcb) × (resultado : ResultadoEjecucion) × (error : Bool)
    × (execute prueba saltado [] 9 pcb (cpu, []) ≡ some ((c', m'), pcb', resultado, error))
    × Saltada goto 12 pcb pcb' cpu c' resultado error
execute-Saltada_example =
    execute-Saltada prueba salta [] saltado goto 9 12 pcb cpu [] se_decodifica es_goto refl
      vale_doce

abbrev perdida : Cpu
perdida = record cpu { esperando = 1 }

no_la_ve : chequear_interrupcion pcb ponerse_espera cpu ≡ some (cpu, ponerse_espera)
unfolding chequear_interrupcion
no_la_ve = refl

la_baja : resolver pcb ponerse_espera (recibir_interrupcion cpu) ≡ some perdida
unfolding resolver recibir_interrupcion
la_baja = refl

resolver-perdida_example :
    (perdida.hay_interrupcion ≡ false)
    × (perdida.esperando ≡ suc cpu.esperando)
    × (perdida.pc_interrupcion ≡ cpu.pc_interrupcion)
resolver-perdida_example = resolver-perdida pcb cpu cpu perdida ponerse_espera refl no_la_ve la_baja

abbrev llamada : Cpu
llamada = record cpu { hay_interrupcion = true; envie_syscall_bloqueante = true; esperando = 1 }

responder-carrera_example :
    (c1 : Cpu) × (c2 : Cpu) × (chequear_interrupcion pcb ponerse_espera llamada
      ≡ some (c1, ponerse_espera))
    × (resolver pcb ponerse_espera c1 ≡ some c2)
    × (responder_interrupcion c1 ≡ none)
    × (responder_interrupcion c2 ≡ some 7)
responder-carrera_example = responder-carrera pcb llamada 0 ponerse_espera refl refl refl

abbrev con_cache : Cpu
con_cache = record cpu { tlb_entries = 0; cache_entries = 2 }

traer_a_cache-ajena_example :
    (c' : Cpu) × (traer_a_cache sin_marcos true 1 2 3 (0 ∷ 1 ∷ []) 9 (con_cache, [])
      ≡ some ((c', []), 0))
    × (c'.el_cache.entries
        ≡ record { pagina = 1; contenido = 1 ∷ 2 ∷ 3 ∷ 4 ∷ []; pid = 3; r = true; d = true } ∷ [])
    × (c'.el_cache.pagina_index 1 ≡ some 0)
traer_a_cache-ajena_example =
    traer_a_cache-ajena sin_marcos true 1 2 3 9 (0 ∷ 1 ∷ []) (1 ∷ 2 ∷ 3 ∷ 4 ∷ []) con_cache [] refl
      (omega arith) refl (omega arith) refl refl

abbrev en_cinco : ℕ → ℕ → Option ℕ
en_cinco pid pagina = some 5

nueva-IsValid : IsValid cpu.tlb
unfolding nueva_tlb
nueva-IsValid = record {
  indice = λ p i e. absurd (cc);
  con_lugar = omega arith;
  puntero = omega arith;
}

nueva-Coherente : Coherente en_cinco cpu.tlb
unfolding nueva_tlb
nueva-Coherente i e at = absurd (ground arith)

conocida : Conocido cpu.tlb.algoritmo_reemplazo
unfolding nueva_tlb
conocida = tt

ejecutar_write-Directa_example :
    (t : Tlb) × (m' : List ℕ) × (ejecutar_write prueba 6 (65 ∷ 66 ∷ []) 3 9 (cpu, [])
      ≡ some (record cpu { tlb = t }, 65 ∷ 66 ∷ []))
    × (ejecutar_read prueba [] 6 2 3 9 (cpu, []) ≡ some (record cpu { tlb = t }, m'))
    × TrasPedido prueba en_cinco 3 (0 ∷ 1 ∷ []) [] m'
    × IsValid t
    × Coherente en_cinco t
unfolding extraer_entradas_y_desplazamiento entradas_de potencia
ejecutar_write-Directa_example =
    ejecutar_write-Directa prueba en_cinco 6 3 9 5 2 (65 ∷ 66 ∷ []) [] cpu [] refl refl
      (omega arith) conocida nueva-IsValid nueva-Coherente refl refl
