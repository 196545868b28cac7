-- ===== src/Memoria/Estado.antt =====
-- The state of the memory module: globals/memoria/globals.go, and the metrics counter of
-- memoria/utils/utils.go.
use conurban_os.Prelude.{ℕ, ◌+◌, List, [], Bool, false, Option, none, some, Mapa, poner}
use Prim.Native.String.{String}

-- The fields of `Memoria_Config` that the operations read.
pub record MemoriaConfig : Type 0 where
  pub memory_size : ℕ
  pub page_size : ℕ
  pub entries_per_page : ℕ
  pub number_of_levels : ℕ

pub record MemoriaMetrica : Type 0 where
  pub accesos_tablas : ℕ
  pub instrucciones_solicitadas : ℕ
  pub bajadas_swap : ℕ
  pub subidas_memoria : ℕ
  pub lecturas_memoria : ℕ
  pub escrituras_memoria : ℕ

-- The n-ary page tree. An entry whose `SiguienteNivel` is nil is a `pagina` with its page and
-- frame numbers; any other is a `siguiente_nivel`, whose two numbers are -1.
mutual
  pub data TablaPaginas : Type 0 where
    tabla : Entradas → TablaPaginas

  pub data Entradas : Type 0 where
    fin : Entradas
    entrada : EntradaTp → Entradas → Entradas

  pub data EntradaTp : Type 0 where
    pagina : ℕ → ℕ → EntradaTp
    siguiente_nivel : TablaPaginas → EntradaTp

pub record Proceso : Type 0 where
  pub pseudocodigo : List String
  pub suspendido : Bool
  pub tabla_de_paginas : TablaPaginas
  pub inicio_swap : ℕ
  pub cantidad_de_paginas : ℕ

-- What a read of a Go map gives for a key that is not there.
abbrev pub proceso_cero : Proceso
proceso_cero = record {
  pseudocodigo = [];
  suspendido = false;
  tabla_de_paginas = tabla fin;
  inicio_swap = 0;
  cantidad_de_paginas = 0;
}

abbrev pub metrica_cero : MemoriaMetrica
metrica_cero = record {
  accesos_tablas = 0;
  instrucciones_solicitadas = 0;
  bajadas_swap = 0;
  subidas_memoria = 0;
  lecturas_memoria = 0;
  escrituras_memoria = 0;
}

-- A page taken out of memory or out of swap.
pub record Pagina : Type 0 where
  pub numero_de_pagina : ℕ
  pub contenido : List ℕ

pub record PaginaLinkeada : Type 0 where
  pub numero_de_pagina : ℕ
  pub numero_de_frame : ℕ

-- The package variables. Bytes are numbers; `procesos_mutex` says which pids have a mutex.
pub record Memoria : Type 0 where
  pub config : MemoriaConfig
  pub bytes : List ℕ
  pub marcos_ocupados : List Bool
  pub procesos : Mapa Proceso
  pub procesos_mutex : ℕ → Bool
  pub metricas : Mapa MemoriaMetrica
  pub indices_swap_ocupados : List Bool
  pub archivo_swap : List ℕ

abbrev pub o_cero {ℓ} : {A : Type ℓ} → A → Option A → A
o_cero cero none = cero
o_cero cero (some a) = a

-- `Procesos[pid]`
abbrev pub proceso_de : Memoria → ℕ → Proceso
proceso_de m pid = o_cero proceso_cero (m.procesos pid)

pub data Metrica : Type 0 where
  accesos_tablas instrucciones_solicitadas bajadas_swap subidas_memoria : Metrica
  lecturas_memoria escrituras_memoria : Metrica

sumar : Metrica → ℕ → MemoriaMetrica → MemoriaMetrica
sumar Metrica.accesos_tablas n x = record x { accesos_tablas = x.accesos_tablas + n }
sumar Metrica.instrucciones_solicitadas n x = record x {
  instrucciones_solicitadas = x.instrucciones_solicitadas + n;
}
sumar Metrica.bajadas_swap n x = record x { bajadas_swap = x.bajadas_swap + n }
sumar Metrica.subidas_memoria n x = record x { subidas_memoria = x.subidas_memoria + n }
sumar Metrica.lecturas_memoria n x = record x { lecturas_memoria = x.lecturas_memoria + n }
sumar Metrica.escrituras_memoria n x = record x { escrituras_memoria = x.escrituras_memoria + n }

unfoldable pub incrementar_metrica : Metrica → ℕ → ℕ → Memoria → Memoria
unfolding sumar
incrementar_metrica metrica pid cantidad m = record m {
  metricas = poner m.metricas pid (sumar metrica cantidad (o_cero metrica_cero (m.metricas pid)));
}
