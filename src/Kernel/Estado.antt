-- ===== src/Kernel/Estado.antt =====
-- The variables of globals/kernel/globals.go. A name or an address stands as a number, since only
-- its equality counts. `enviados` has the requests to the other programs, the last one first.
use conurban_os.Prelude.{
  ℕ, zero, suc, List, Bool, true, false, Option, none, some, ◌==◌, ltb, if◌then◌else◌, Mapa,
}
use Prim.Native.String.{String}

pub data Estado : Type 0 where
  new ready execute blocked susp_blocked susp_ready : Estado

abbrev pub codigo : Estado → ℕ
codigo new = 0
codigo ready = 1
codigo execute = 2
codigo blocked = 3
codigo susp_blocked = 4
codigo susp_ready = 5

-- A table with an entry for each state, and a new entry in it.
abbrev pub en_estado {ℓ} : {A : Type ℓ} → (Estado → A) → Estado → A → Estado → A
en_estado f e a e' = if codigo e == codigo e' then a else f e'

-- The estimates are numbers with a point; `rafagas` has the bursts they are computed from, the last
-- one first.
pub record ProcesoKernel : Type 0 where
  pub pid : ℕ
  pub pc : ℕ
  pub me : Estado → ℕ
  pub mt : Estado → ℕ
  pub estado_actual : Estado
  pub rafagas : List ℕ
  pub ultimo_cambio_de_estado : ℕ
  pub archivo_pseudocodigo : String
  pub tamanio : ℕ

pub record ListaCpu : Type 0 where
  pub nombre : ℕ
  pub ip : ℕ
  pub puerto : ℕ
  pub esta_libre : Bool
  pub pid_actual : ℕ

-- `pid_proceso_actual` is none where the source has -1.
pub record InstanciaIo : Type 0 where
  pub nombre_instancia : ℕ
  pub ip : ℕ
  pub puerto : ℕ
  pub pid_proceso_actual : Option ℕ

pub record SyscallIo : Type 0 where
  pub nombre_io : ℕ
  pub nombre_cpu : ℕ
  pub tiempo : ℕ
  pub pid : ℕ
  pub pc : ℕ

pub record EntradaMapaIo : Type 0 where
  pub instancias : List InstanciaIo
  pub cola_procesos_esperando : List SyscallIo

-- Scheduler_algorithm; another string is `sin_algoritmo`.
pub data AlgoritmoCorto : Type 0 where
  fifo sjf srt sin_algoritmo : AlgoritmoCorto

abbrev pub es_fifo : AlgoritmoCorto → Bool
es_fifo fifo = true
es_fifo _ = false

pub data Mensaje : Type 0 where
  dispatch_proceso : ℕ → ℕ → ℕ → ℕ → Mensaje
  interrumpir : ℕ → ℕ → ℕ → Mensaje
  solicitud_de_io : ℕ → ℕ → ℕ → ℕ → Mensaje
  iniciar : String → ℕ → ℕ → Mensaje
  reanudar suspender finalizar memory_dump : ℕ → Mensaje

-- `tomada` says which queues' mutexes are held; `procesos_mutex` has the mutexes of the processes,
-- and whether each is held. The three buffered channels are the counts of what they hold, and
-- `srt_replanificar` whether the channel of one place is full.
pub record Kernel : Type 0 where
  pub cola : Estado → List ℕ
  pub tomada : Estado → Bool
  pub mapa_procesos : Mapa ProcesoKernel
  pub procesos_mutex : Mapa Bool
  pub algoritmo : AlgoritmoCorto
  pub pmcp : Bool
  pub pid_counter : ℕ
  pub lista_cpus : List ListaCpu
  pub mapa_ios : Mapa EntradaMapaIo
  pub cantidad_sesiones_io : Mapa ℕ
  pub sem_cpus : ℕ
  pub sem_procesos_en_ready : ℕ
  pub sem_pasar_proceso_a_ready : ℕ
  pub srt_replanificar : Bool
  pub enviados : List Mensaje

-- A send on a channel of 1000 places: it waits where the channel is full.
abbrev pub signal : ℕ → Option ℕ
signal n = if ltb n 1000 then some (suc n) else none

-- A wait on a channel that holds nothing does not return.
abbrev pub wait : ℕ → Option ℕ
wait zero = none
wait (suc n) = some n

unfoldable pub signal_pasar_proceso_a_ready : Kernel → Option Kernel
signal_pasar_proceso_a_ready k = elim (signal k.sem_pasar_proceso_a_ready) [
  | none ↦ none
  | some n ↦ some (record k { sem_pasar_proceso_a_ready = n })
]

-- `NotificarReplanifSRT`: where the channel is full nothing is sent.
abbrev pub notificar_replanif_srt : Kernel → Kernel
notificar_replanif_srt k = record k { srt_replanificar = true }

unfoldable pub avisar_proceso_en_ready : AlgoritmoCorto → Kernel → Option Kernel
avisar_proceso_en_ready srt k = some (notificar_replanif_srt k)
avisar_proceso_en_ready sin_algoritmo k = some k
avisar_proceso_en_ready _ k = elim (signal k.sem_procesos_en_ready) [
  | none ↦ none
  | some n ↦ some (record k { sem_procesos_en_ready = n })
]
