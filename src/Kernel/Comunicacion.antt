-- ===== src/Kernel/Comunicacion.antt =====
-- The requests of the kernel to the other programs: kernel/utils/planificadores/comunicacion.go,
-- EnviarDumpMemory and EnviarInterrupcionACPU of kernel/utils/general/misc.go. A request is sent and
-- gets an answer, which is an argument where the caller reads it. The dispatch to a CPU and the
-- request to an I/O device also change state: they stand in Cpus and Ios.
use conurban_os.Prelude.{ℕ, ◌∷◌, Bool}
use conurban_os.Kernel.Estado.{Kernel, Mensaje, ProcesoKernel, ListaCpu}

abbrev pub enviar : Mensaje → Kernel → Kernel
enviar m k = record k { enviados = m ∷ k.enviados }

-- The answer is not read.
abbrev pub enviar_finalizacion_a_memoria : ℕ → Kernel → Kernel
enviar_finalizacion_a_memoria pid k = enviar (Mensaje.finalizar pid) k

-- Whether the memory answers 200.
abbrev pub enviar_reanudar_proceso_a_memoria : (ℕ → Bool) → ℕ → Kernel → Kernel × Bool
enviar_reanudar_proceso_a_memoria responde pid k = (enviar (Mensaje.reanudar pid) k, responde pid)

abbrev pub enviar_inicializar_proceso_a_memoria :
    (ℕ → Bool) → ProcesoKernel → Kernel → Kernel × Bool
enviar_inicializar_proceso_a_memoria responde p k =
    (enviar (Mensaje.iniciar p.archivo_pseudocodigo p.tamanio p.pid) k, responde p.pid)

abbrev pub enviar_suspension_proceso_a_memoria : ℕ → Kernel → Kernel
enviar_suspension_proceso_a_memoria pid k = enviar (Mensaje.suspender pid) k

-- The answer, a program counter, comes in a later step.
abbrev pub enviar_interrupcion_a_cpu : ListaCpu → ℕ → Kernel → Kernel
enviar_interrupcion_a_cpu cpu pid k = enviar (Mensaje.interrumpir cpu.ip cpu.puerto pid) k

abbrev pub enviar_dump_memory : Bool → ℕ → Kernel → Kernel × Bool
enviar_dump_memory volcado pid k = (enviar (Mensaje.memory_dump pid) k, volcado)
