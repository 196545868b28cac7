-- ===== src/Casos/Llamadas.antt =====
-- The system calls and the end of devices at concrete inputs.
use conurban_os.Prelude.{
  ℕ, ◌≢◌, ◌<◌, ◌≡◌, refl, List, [], ◌∷◌, Bool, true, false, Option, some, none, arith, poner,
}
use conurban_os.Kernel.Estado.{
  Estado, ready, execute, blocked, signal_pasar_proceso_a_ready, InstanciaIo, SyscallIo, Kernel,
}
use conurban_os.Kernel.Orden.{veces}
use conurban_os.Kernel.Medio.{bloquear_proceso}
use conurban_os.Kernel.Colas.{
  lock_proceso, unlock_proceso, lock_cola, unlock_cola, eliminar_proceso_de, sacar_de,
}
use conurban_os.Kernel.Cpus.{liberar_cpu}
use conurban_os.Kernel.Invariante.Llamadas.{manejar_exit-fantasma}
use conurban_os.Kernel.Ios.{
  desconexion_io, desconectar, buscar_instancia_io, finalizar_esperando, posicion_io,
}
use conurban_os.Kernel.Largo.{finalizar_proceso}
use conurban_os.Kernel.Ios.Desconexion.{SinProceso, desconexion_io-SinProceso}
use conurban_os.Kernel.Syscalls.{manejar_exit, tomar_y_volcar}
use conurban_os.Kernel.Comunicacion.{enviar_finalizacion_a_memoria}
use conurban_os.Casos.Colas.{vacio}
use conurban_os.Casos.Planificador.{proceso, con_listos, una_cpu}

abbrev tras : Option (Kernel × Option ℕ) → Kernel
tras none = vacio
tras (some (k, n)) = k

abbrev en_cpu : Estado → List ℕ
en_cpu execute = 3 ∷ []
en_cpu _ = []

abbrev ejecutando : Kernel
ejecutando = record vacio {
  cola = en_cpu;
  mapa_procesos = λ pid. some (proceso execute pid);
  procesos_mutex = λ pid. some false;
}

abbrev tomado : Kernel
tomado = record ejecutando { procesos_mutex = poner ejecutando.procesos_mutex 3 true }

abbrev devuelto : Kernel
devuelto = record tomado { procesos_mutex = poner tomado.procesos_mutex 3 false }

abbrev bloqueado : Kernel
bloqueado = tras (bloquear_proceso 3 20 devuelto)

abbrev con_mutex_tomado : Option (Kernel × Bool) → Kernel
con_mutex_tomado none = vacio
con_mutex_tomado (some (k, b)) = k

abbrev volcado : Kernel
volcado = con_mutex_tomado (tomar_y_volcar 3 false bloqueado)

abbrev desencolado : Kernel
desencolado = con_mutex_tomado (sacar_de blocked 3 (enviar_finalizacion_a_memoria 3 volcado))

-- The process 3 was preempted before its EXIT is handled.
abbrev desalojado : Kernel
desalojado = record con_listos {
  lista_cpus = record una_cpu { esta_libre = false; pid_actual = 3 } ∷ [];
}

abbrev sin_el : Option Kernel → Kernel
sin_el none = vacio
sin_el (some k) = k

abbrev terminado : Kernel
terminado = sin_el (manejar_exit 3 5 20 desalojado)

termina : manejar_exit 3 5 20 desalojado ≡ some terminado
unfolding manejar_exit finalizar_proceso eliminar_proceso_de lock_cola unlock_cola lock_proceso
    unlock_proceso poner signal_pasar_proceso_a_ready liberar_cpu
termina = refl

manejar_exit-fantasma_example :
    (0 < veces 3 (terminado.cola ready))
    × (terminado.cola ready ≡ 3 ∷ 4 ∷ [])
    × (terminado.mapa_procesos 3 ≡ none)
    × ((a : ℕ) → 3 ≢ a → terminado.mapa_procesos a ≡ some (proceso ready a))
manejar_exit-fantasma_example =
    manejar_exit-fantasma 3 5 20 ready desalojado terminado (omega arith) (omega arith) termina

abbrev en_espera : Estado → List ℕ
en_espera blocked = 3 ∷ []
en_espera _ = []

abbrev espera_impresora : SyscallIo
espera_impresora = record { nombre_io = 8; nombre_cpu = 5; tiempo = 100; pid = 3; pc = 4 }

abbrev impresora : InstanciaIo
impresora = record { nombre_instancia = 1; ip = 2; puerto = 3; pid_proceso_actual = none }

abbrev con_impresora : Kernel
con_impresora = record vacio {
  cola = en_espera;
  mapa_procesos = poner (λ pid. none) 3 (proceso blocked 3);
  procesos_mutex = λ pid. some false;
  pid_counter = 4;
  mapa_ios = λ nombre.
      some
        (record { instancias = impresora ∷ []; cola_procesos_esperando = espera_impresora ∷ [] });
}

abbrev sin_impresora : Option (Kernel × Bool) → Kernel
sin_impresora none = vacio
sin_impresora (some (k, b)) = k

abbrev desconectada : Kernel
desconectada = sin_impresora (desconexion_io 8 1 none 20 con_impresora)

se_desconecta : desconexion_io 8 1 none 20 con_impresora ≡ some (desconectada, true)
unfolding desconexion_io desconectar buscar_instancia_io finalizar_esperando posicion_io
    lock_proceso unlock_proceso poner finalizar_proceso eliminar_proceso_de lock_cola unlock_cola
    signal_pasar_proceso_a_ready
se_desconecta = refl

desconexion_io-SinProceso_example :
    (desconectada.mapa_ios 8
      ≡ some (record { instancias = []; cola_procesos_esperando = espera_impresora ∷ [] }))
    × SinProceso desconectada.mapa_procesos (espera_impresora ∷ [])
desconexion_io-SinProceso_example =
    desconexion_io-SinProceso 8 20 impresora (espera_impresora ∷ []) con_impresora desconectada true
      refl se_desconecta
