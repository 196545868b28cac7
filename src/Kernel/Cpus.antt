-- ===== src/Kernel/Cpus.antt =====
-- The list of CPUs: elegirCPUlibre and hayCpusLibres of kernel/utils/planificadores/corto.go,
-- BuscarCpu, BuscarCpuPorPID and LiberarCPU of kernel/utils/general/misc.go, Enviar_proceso_a_cpu of
-- kernel/utils/planificadores/comunicacion.go, and agregarAListaCPUs of
-- kernel/utils/handlers/handshakeHandler.go. None of them holds the list's mutex when it returns, or
-- while it takes another one, and the mutex is left out.
use conurban_os.Prelude.{
  ℕ, suc, List, [], ◌∷◌, ◌++◌, Bool, true, false, ◌&&◌, not, Option, none, some, ◌>>=◌, ◌==◌,
  if◌then◌else◌, get_elem?, set,
}
use conurban_os.Kernel.Comunicacion.{enviar}
use conurban_os.Kernel.Estado.{
  ListaCpu, Kernel, AlgoritmoCorto, fifo, sjf, srt, sin_algoritmo, signal, notificar_replanif_srt,
  Mensaje,
}

-- The first position from i on of a CPU that passes the test.
unfoldable pub posicion : (ListaCpu → Bool) → ℕ → List ListaCpu → Option ℕ
posicion test i [] = none
posicion test i (c ∷ cs) = let resto = posicion test (suc i) cs in if test c then some i else resto

unfoldable pub buscar_cpu : ℕ → Kernel → Option ℕ
unfolding posicion
buscar_cpu nombre k = posicion (λ c. c.nombre == nombre) 0 k.lista_cpus

unfoldable pub buscar_cpu_por_pid : ℕ → Kernel → Option ListaCpu
unfolding posicion
buscar_cpu_por_pid pid k = do
  i ← posicion (λ c. not c.esta_libre && (c.pid_actual == pid)) 0 k.lista_cpus
  get_elem? k.lista_cpus i

unfoldable pub hay_cpus_libres : Kernel → Bool
unfolding posicion
hay_cpus_libres k = elim (posicion (λ c. c.esta_libre) 0 k.lista_cpus) [
  | none ↦ false
  | some i ↦ true
]

abbrev pub con_cpu : ℕ → ListaCpu → Kernel → Kernel
con_cpu i c k = record k { lista_cpus = set k.lista_cpus i c }

-- The first free CPU, which is taken; the inner none is the error of the source.
unfoldable pub elegir_cpu_libre : Kernel → Kernel × Option ListaCpu
unfolding posicion
elegir_cpu_libre k = elim (posicion (λ c. c.esta_libre) 0 k.lista_cpus) [
  | none ↦ (k, none)
  | some i ↦ elim (get_elem? k.lista_cpus i) [
    | none ↦ (k, none)
    | some c ↦ let tomada = record c { esta_libre = false } in (con_cpu i tomada k, some tomada)
  ]
]

-- A signal to Sem_Cpus under FIFO and SJF.
unfoldable pub signal_cpus : Kernel → Option Kernel
signal_cpus k = elim (signal k.sem_cpus) [ none ↦ none | some n ↦ some (record k { sem_cpus = n }) ]

unfoldable pub avisar_cpu : AlgoritmoCorto → Kernel → Option Kernel
unfolding signal_cpus
avisar_cpu fifo k = signal_cpus k
avisar_cpu sjf k = signal_cpus k
avisar_cpu srt k = some (notificar_replanif_srt k)
avisar_cpu sin_algoritmo k = some k

-- A name that is not in the list is the index -1.
unfoldable pub liberar_cpu : ℕ → Kernel → Option Kernel
unfolding buscar_cpu avisar_cpu
liberar_cpu nombre k = do
  i ← buscar_cpu nombre k
  c ← get_elem? k.lista_cpus i
  avisar_cpu k.algoritmo (con_cpu i (record c { esta_libre = true }) k)

-- The request, and the pid in the first CPU of that address.
unfoldable pub enviar_proceso_a_cpu : ListaCpu → ℕ → ℕ → Kernel → Kernel
unfolding posicion
enviar_proceso_a_cpu cpu pid pc k =
    let k1 = enviar (Mensaje.dispatch_proceso cpu.ip cpu.puerto pid pc) k in
    elim (posicion (λ c. (c.ip == cpu.ip) && (c.puerto == cpu.puerto)) 0 k.lista_cpus) [
      | none ↦ k1
      | some i ↦ elim (get_elem? k.lista_cpus i) [
        | none ↦ k1
        | some c ↦ con_cpu i (record c { pid_actual = pid }) k1
      ]
    ]

-- The handshake of a CPU; under SRT nobody is told.
unfoldable pub agregar_a_lista_cpus : ℕ → ℕ → ℕ → Kernel → Option Kernel
unfolding signal_cpus
agregar_a_lista_cpus nombre ip puerto k =
    let cpu : ListaCpu = record {
      nombre = nombre;
      ip = ip;
      puerto = puerto;
      esta_libre = true;
      pid_actual = 0;
    } in
    let k1 : Kernel = record k { lista_cpus = k.lista_cpus ++ cpu ∷ [] } in
    elim k.algoritmo [
      | fifo ↦ signal_cpus k1
      | sjf ↦ signal_cpus k1
      | srt ↦ some k1
      | sin_algoritmo ↦ some k1
    ]
