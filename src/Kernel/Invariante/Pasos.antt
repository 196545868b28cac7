-- ===== src/Kernel/Invariante/Pasos.antt =====
-- The steps of the kernel, and the states that they reach.
use conurban_os.Kernel.Invariante.Llamadas.{manejar_dump_memory-Bien, manejar_exit-Bien}
use conurban_os.Kernel.Invariante.Solicitudes.{manejar_io-Bien, manejar_init_proc-Bien}
use conurban_os.Kernel.Invariante.Dispositivos.{
  finalizar-Bien, manejar_fin_io-Bien, desconexion_io-Bien,
}
use conurban_os.Kernel.Syscalls.{manejar_init_proc, manejar_dump_memory, manejar_exit}
use conurban_os.Kernel.Ios.{manejar_fin_io, desconexion_io, manejar_io}
use conurban_os.Prelude.{ℕ, ◌<◌, ◌≡◌, [], Bool, Option, some, none, arith}
use Prim.Native.String.{String}
use conurban_os.Kernel.Estado.{Estado, ListaCpu, ProcesoKernel, Kernel, AlgoritmoCorto, SyscallIo}
use conurban_os.Kernel.Orden.{veces, Sort, Estimados}
use conurban_os.Kernel.Colas.{
  execute_a_ready, ready_a_execute, blocked_a_ready, susp_blocked_a_susp_ready,
}
use conurban_os.Kernel.Largo.{crear_proceso_nuevo, finalizar_proceso, pasar_procesos_a_ready}
use conurban_os.Kernel.Medio.{bloquear_proceso, sigue_bloqueado}
use conurban_os.Kernel.Corto.{desalojar_con_respuesta, planificador_corto, ordenar_ready_por_rafaga}
use conurban_os.Kernel.Cpus.{elegir_cpu_libre, enviar_proceso_a_cpu}
use conurban_os.Kernel.Invariante.{Bien, vista-Bien}
use conurban_os.Kernel.Invariante.Ubicado.{Ubicado-Bien}
use conurban_os.Kernel.Invariante.Cambios.{execute_a_ready-Bien, ready_a_execute-Bien}
use conurban_os.Kernel.Invariante.Comienzo.{crear_proceso_nuevo-Ubicado}
use conurban_os.Kernel.Invariante.Rondas.{pasar_procesos_a_ready-Bien}
use conurban_os.Kernel.Invariante.Despacho.{
  desalojar_con_respuesta-Bien, elegir_cpu_libre-vista, enviar_proceso_a_cpu-vista,
}
use conurban_os.Kernel.Invariante.Rafagas.{planificador_corto-Bien, ordenar_ready-Bien}
use conurban_os.Kernel.Invariante.Bloqueo.{
  bloquear_proceso-Bien, sigue_bloqueado-Bien, blocked_a_ready-Bien, susp_blocked_a_susp_ready-Bien,
}

-- The steps of the kernel that change what the invariant speaks of: the rounds of its schedulers, its
-- handlers, and the changes of state by themselves. Each is an operation that returns, with whatever
-- answer of the other programs. The parts of a dispatch are also steps of their own, since a handler of
-- the process that was sent can run between the sending and the change to EXECUTE.
pub data Paso (sort : Sort) (est : Estimados) : Kernel → Kernel → Type 0 where
  crea :
      (archivo : String) (tamanio ahora : ℕ) (k k' : Kernel)
      → crear_proceso_nuevo sort archivo tamanio ahora k ≡ some k'
      → Paso sort est k k'
  planifica :
      (reanuda entra : ℕ → Bool) (ahora : ℕ) (k k' : Kernel)
      → pasar_procesos_a_ready sort reanuda entra ahora k ≡ some k'
      → Paso sort est k k'
  despacha :
      (algoritmo : AlgoritmoCorto) (ahora : ℕ) (s : Option (ℕ × ListaCpu × ℕ × ℕ)) (k k' : Kernel)
      → planificador_corto sort est algoritmo ahora k ≡ some (k', s)
      → Paso sort est k k'
  elige : (k k' : Kernel) → (elegir_cpu_libre k).0 ≡ k' → Paso sort est k k'
  ordena : (k k' : Kernel) → ordenar_ready_por_rafaga sort est k ≡ some k' → Paso sort est k k'
  envia :
      (cpu : ListaCpu) (pid pc : ℕ) (k k' : Kernel)
      → enviar_proceso_a_cpu cpu pid pc k ≡ k'
      → Paso sort est k k'
  pasa_a_execute :
      (pid ahora : ℕ) (b : Bool) (k k' : Kernel)
      → ready_a_execute pid ahora k ≡ some (k', b)
      → Paso sort est k k'
  responde :
      (pid : ℕ) (respuesta : Option ℕ) (destino : ListaCpu × ℕ × ℕ) (ahora : ℕ) (k k' : Kernel)
      → desalojar_con_respuesta pid respuesta destino ahora k ≡ some k'
      → Paso sort est k k'
  bloquea :
      (pid ahora : ℕ) (s : Option ℕ) (k k' : Kernel)
      → bloquear_proceso pid ahora k ≡ some (k', s)
      → Paso sort est k k'
  suspende :
      (pid n ahora : ℕ) (k k' : Kernel)
      → sigue_bloqueado pid n ahora k ≡ some k'
      → Paso sort est k k'
  desaloja :
      (pid ahora : ℕ) (b : Bool) (k k' : Kernel)
      → execute_a_ready pid ahora k ≡ some (k', b)
      → Paso sort est k k'
  despierta :
      (pid ahora : ℕ) (b : Bool) (k k' : Kernel)
      → blocked_a_ready pid ahora k ≡ some (k', b)
      → Paso sort est k k'
  despierta_suspendido :
      (pid ahora : ℕ) (b : Bool) (k k' : Kernel)
      → susp_blocked_a_susp_ready pid ahora k ≡ some (k', b)
      → Paso sort est k k'
  termina :
      (pid : ℕ) (anterior : Estado) (ahora : ℕ) (k k' : Kernel)
      → finalizar_proceso pid anterior ahora k ≡ some k'
      → Paso sort est k k'
  fin_io :
      (pid nombre_io nombre_instancia ahora : ℕ) (k k' : Kernel)
      → manejar_fin_io pid nombre_io nombre_instancia ahora k ≡ some k'
      → Paso sort est k k'
  desconecta :
      (nombre_io nombre_instancia : ℕ) (pid_proceso : Option ℕ) (ahora : ℕ) (b : Bool)
      (k k' : Kernel)
      → desconexion_io nombre_io nombre_instancia pid_proceso ahora k ≡ some (k', b)
      → Paso sort est k k'
  pide_io :
      (s : SyscallIo) (ahora : ℕ) (sesion : Option ℕ) (k k' : Kernel)
      → manejar_io s ahora k ≡ some (k', sesion)
      → Paso sort est k k'
  pide_init_proc :
      (archivo : String) (tamanio nombre_cpu pid pc ahora : ℕ) (k k' : Kernel)
      → manejar_init_proc sort archivo tamanio nombre_cpu pid pc ahora k ≡ some k'
      → Paso sort est k k'
  pide_dump :
      (pid pc nombre_cpu : ℕ) (volcado : Bool) (ahora : ℕ) (sesion : Option ℕ) (k k' : Kernel)
      → manejar_dump_memory pid pc nombre_cpu volcado ahora k ≡ some (k', sesion)
      → Paso sort est k k'
  pide_exit :
      (pid nombre_cpu ahora : ℕ) (k k' : Kernel)
      → manejar_exit pid nombre_cpu ahora k ≡ some k'
      → Paso sort est k k'

pub data Alcanza (sort : Sort) (est : Estimados) : Kernel → Kernel → Type 0 where
  quieto : (k : Kernel) → Alcanza sort est k k
  luego : (k k1 k' : Kernel) → Alcanza sort est k k1 → Paso sort est k1 k' → Alcanza sort est k k'

Paso-Bien : (sort : Sort) (est : Estimados) (k k' : Kernel) → Paso sort est k k' → Bien k → Bien k'
Paso-Bien sort est k k' (crea archivo tamanio ahora _ _ h) b =
    Ubicado-Bien (crear_proceso_nuevo-Ubicado sort archivo tamanio ahora k h b).0 b
Paso-Bien sort est k k' (planifica reanuda entra ahora _ _ h) b =
    pasar_procesos_a_ready-Bien sort reanuda entra ahora k h b
Paso-Bien sort est k k' (despacha algoritmo ahora s _ _ h) b =
    planificador_corto-Bien sort est algoritmo ahora k h b
Paso-Bien sort est k k' (elige _ _ h) b = vista-Bien (rw h at (elegir_cpu_libre-vista k)) b
Paso-Bien sort est k k' (ordena _ _ h) b = ordenar_ready-Bien sort est k h b
Paso-Bien sort est k k' (envia cpu pid pc _ _ h) b =
    vista-Bien (rw h at (enviar_proceso_a_cpu-vista cpu pid pc k)) b
Paso-Bien sort est k k' (pasa_a_execute pid ahora s _ _ h) b = ready_a_execute-Bien pid ahora h b
Paso-Bien sort est k k' (responde pid respuesta destino ahora _ _ h) b =
    desalojar_con_respuesta-Bien pid respuesta destino ahora h b
Paso-Bien sort est k k' (bloquea pid ahora s _ _ h) b = bloquear_proceso-Bien pid ahora h b
Paso-Bien sort est k k' (suspende pid n ahora _ _ h) b = sigue_bloqueado-Bien pid n ahora h b
Paso-Bien sort est k k' (desaloja pid ahora s _ _ h) b = execute_a_ready-Bien pid ahora h b
Paso-Bien sort est k k' (despierta pid ahora s _ _ h) b = blocked_a_ready-Bien pid ahora h b
Paso-Bien sort est k k' (despierta_suspendido pid ahora s _ _ h) b =
    susp_blocked_a_susp_ready-Bien pid ahora h b
Paso-Bien sort est k k' (termina pid anterior ahora _ _ h) b =
    finalizar-Bien pid anterior ahora k h b
Paso-Bien sort est k k' (fin_io pid nombre_io nombre_instancia ahora _ _ h) b =
    manejar_fin_io-Bien pid nombre_io nombre_instancia ahora k h b
Paso-Bien sort est k k' (desconecta nombre_io nombre_instancia pid_proceso ahora s _ _ h) b =
    desconexion_io-Bien nombre_io nombre_instancia pid_proceso ahora k h b
Paso-Bien sort est k k' (pide_io s ahora sesion _ _ h) b = manejar_io-Bien s ahora k h b
Paso-Bien sort est k k' (pide_init_proc archivo tamanio nombre_cpu pid pc ahora _ _ h) b =
    manejar_init_proc-Bien sort archivo tamanio nombre_cpu pid pc ahora k h b
Paso-Bien sort est k k' (pide_dump pid pc nombre_cpu volcado ahora sesion _ _ h) b =
    manejar_dump_memory-Bien pid pc nombre_cpu volcado ahora k h b
Paso-Bien sort est k k' (pide_exit pid nombre_cpu ahora _ _ h) b =
    manejar_exit-Bien pid nombre_cpu ahora k h b

-- The kernel as it starts: no process anywhere.
pub record IsInicial (k : Kernel) : Type 0 where
  pub vacias : (e : Estado) → k.cola e ≡ []
  pub sin_procesos : (a : ℕ) → k.mapa_procesos a ≡ none

IsInicial-Bien : (k : Kernel) → IsInicial k → Bien k
IsInicial-Bien k i = record {
  una = λ e a. rw (i.vacias e) (omega arith);
  sola = λ e e' a h h'. let q = rw (i.vacias e) at h in absurd (omega arith);
  vistos = λ e a h. let q = rw (i.vacias e) at h in absurd (omega arith);
  estado = λ e a p h en. let q = rw (i.vacias e) at h in absurd (omega arith);
  clave = λ a p h. let n = i.sin_procesos a in absurd (ground arith);
  dados = λ a p h. let n = i.sin_procesos a in absurd (ground arith);
}

Alcanza-Bien :
    (sort : Sort) (est : Estimados) (k k' : Kernel) → IsInicial k → Alcanza sort est k k' → Bien k'
Alcanza-Bien sort est k k' i (quieto _) = IsInicial-Bien k i
Alcanza-Bien sort est k k' i (luego _ k1 _ antes paso) =
    Paso-Bien sort est k1 k' paso (Alcanza-Bien sort est k k1 i antes)

-- In a state that the steps reach from the start, a process of a queue is there once and in no other
-- queue, has a pid that was given, and, where the map has it, the map has it with the state of that
-- queue.
pub Alcanza-exclusion :
    (sort : Sort) (est : Estimados) (k k' : Kernel) (e : Estado) (pid : ℕ)
    → IsInicial k
    → Alcanza sort est k k'
    → 0 < veces pid (k'.cola e)
    → (veces pid (k'.cola e) ≡ 1)
      × (pid < k'.pid_counter)
      × ((p : ProcesoKernel) → k'.mapa_procesos pid ≡ some p → p.estado_actual ≡ e)
      × ((e' : Estado) → 0 < veces pid (k'.cola e') → e ≡ e')
Alcanza-exclusion sort est k k' e pid i a h =
    let b = Alcanza-Bien sort est k k' i a in
    let u = b.una e pid in
    (omega arith, b.vistos e pid h, λ p en. b.estado e pid p h en, λ e' h'. b.sola e e' pid h h')
