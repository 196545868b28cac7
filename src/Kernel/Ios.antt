-- ===== src/Kernel/Ios.antt =====
-- The I/O devices: kernel/utils/handlers/ioHandler.go, manejarIO of syscallHandler.go,
-- agregarAInstanciasIOs of handshakeHandler.go and EnviarSolicitudIO of kernel/utils/general/misc.go.
-- Each of them takes the mutex of the devices first and gives it back on every way out, and it is
-- left out. A request gets an answer.
pub mod Desconexion
use conurban_os.Prelude.{
  ℕ, suc, ◌+◌, ◌-◌, List, [], ◌∷◌, ◌++◌, Bool, true, false, not, Option, none, some, ◌>>=◌, ltb,
  ◌==◌, if◌then◌else◌, get_elem?, set, length, take, drop, poner, borrar,
}
use conurban_os.Kernel.Comunicacion.{enviar}
use conurban_os.Kernel.Estado.{
  InstanciaIo, SyscallIo, EntradaMapaIo, ProcesoKernel, Kernel, Mensaje, execute, blocked,
  susp_blocked, codigo, signal_pasar_proceso_a_ready, avisar_proceso_en_ready, Estado,
}
use conurban_os.Kernel.Colas.{
  lock_proceso, unlock_proceso, blocked_a_ready, susp_blocked_a_susp_ready,
}
use conurban_os.Kernel.Cpus.{liberar_cpu}
use conurban_os.Kernel.Largo.{finalizar_proceso}
use conurban_os.Kernel.Medio.{sesiones, bloquear_proceso}
use conurban_os.Kernel.Corto.{actualizar_pc}

-- `globals.MapaIOs[nombre]`
abbrev pub io_de : ℕ → Kernel → EntradaMapaIo
io_de nombre k = elim (k.mapa_ios nombre) [
  | none ↦ record { instancias = []; cola_procesos_esperando = [] }
  | some io ↦ io
]

abbrev pub con_io : ℕ → EntradaMapaIo → Kernel → Kernel
con_io nombre io k = record k { mapa_ios = poner k.mapa_ios nombre io }

-- The first position from i on of an instance that passes the test.
unfoldable pub posicion_io : (InstanciaIo → Bool) → ℕ → List InstanciaIo → Option ℕ
posicion_io test i [] = none
posicion_io test i (x ∷ xs) =
    let resto = posicion_io test (suc i) xs in if test x then some i else resto

unfoldable pub buscar_instancia_io : ℕ → ℕ → Kernel → Option ℕ
unfolding posicion_io
buscar_instancia_io nombre_io nombre_instancia k =
    posicion_io (λ x. x.nombre_instancia == nombre_instancia) 0 (io_de nombre_io k).instancias

abbrev pub esta_desocupada : InstanciaIo → Bool
esta_desocupada x = elim x.pid_proceso_actual [ none ↦ true | some pid ↦ false ]

unfoldable pub buscar_instancia_io_libre : ℕ → Kernel → Option ℕ
unfolding posicion_io
buscar_instancia_io_libre nombre_io k = posicion_io esta_desocupada 0 (io_de nombre_io k).instancias

unfoldable pub verificar_existencia_io : ℕ → Kernel → Bool
verificar_existencia_io nombre_io k = elim (k.mapa_ios nombre_io) [
  | none ↦ false
  | some io ↦ ltb 0 (length io.instancias)
]

unfoldable pub agregar_a_instancias_ios : ℕ → ℕ → ℕ → ℕ → Kernel → Kernel
agregar_a_instancias_ios nombre_io nombre_instancia ip puerto k =
    let io = io_de nombre_io k in
    let x : InstanciaIo = record {
      nombre_instancia = nombre_instancia;
      ip = ip;
      puerto = puerto;
      pid_proceso_actual = none;
    } in
    con_io nombre_io (record io { instancias = io.instancias ++ x ∷ [] }) k

-- A request counts as a session of the process.
unfoldable pub enviar_solicitud_io : InstanciaIo → ℕ → ℕ → Kernel → Kernel
enviar_solicitud_io x pid tiempo k =
    record (enviar (Mensaje.solicitud_de_io x.ip x.puerto pid tiempo) k) {
      cantidad_sesiones_io = poner k.cantidad_sesiones_io pid (sesiones pid k + 1);
    }

-- The change of state at the end of an I/O; false where the source returns.
unfoldable pub despertar : Estado → ℕ → ℕ → Kernel → Option (Kernel × Bool)
despertar susp_blocked pid ahora k = do
  (k1, ok) ← susp_blocked_a_susp_ready pid ahora k
  (if ok then (do k2 ← signal_pasar_proceso_a_ready k1; some (k2, true)) else some (k1, false))
despertar blocked pid ahora k = do
  (k1, ok) ← blocked_a_ready pid ahora k
  (if ok
      then (do k2 ← avisar_proceso_en_ready k1.algoritmo k1; some (k2, true))
      else some (k1, false))
despertar _ pid ahora k = some (k, true)

-- The instance is free again, and the first process that waits for the device, if there is one,
-- takes it.
unfoldable pub liberar_instancia : ℕ → ℕ → Kernel → Option Kernel
unfolding enviar_solicitud_io
liberar_instancia nombre_io pos k = do
  let io = io_de nombre_io k
  x ← get_elem? io.instancias pos
  elim io.cola_procesos_esperando [
    | [] ↦ some (
        con_io nombre_io
          (record io {
            instancias = set io.instancias pos (record x { pid_proceso_actual = none });
          })
          k)
    | s ∷ resto ↦ some (
        con_io nombre_io
          (record {
            instancias = set io.instancias pos (record x { pid_proceso_actual = some s.pid });
            cola_procesos_esperando = resto;
          })
          (enviar_solicitud_io x s.pid s.tiempo k))
  ]

unfoldable pub manejar_fin_io : ℕ → ℕ → ℕ → ℕ → Kernel → Option Kernel
unfolding despertar buscar_instancia_io liberar_instancia
manejar_fin_io pid nombre_io nombre_instancia ahora k = do
  k1 ← lock_proceso pid k
  elim (k1.mapa_procesos pid) [
    | none ↦ unlock_proceso pid k1
    | some p ↦ do
      (k2, sigue) ← despertar p.estado_actual pid ahora k1
      k3 ← unlock_proceso pid k2
      (if not sigue then some k3 else (elim (buscar_instancia_io nombre_io nombre_instancia k3) [
        | none ↦ some k3
        | some pos ↦ liberar_instancia nombre_io pos k3
      ]))
  ]

-- The processes that wait for a device without instances are finished, one after the other.
unfoldable pub finalizar_esperando : List SyscallIo → ℕ → Kernel → Option Kernel
unfolding finalizar_proceso
finalizar_esperando [] ahora k = some k
finalizar_esperando (s ∷ ss) ahora k = do
  k1 ← lock_proceso s.pid k
  k2 ← unlock_proceso s.pid k1
  k3 ← (elim (k1.mapa_procesos s.pid) [
    | none ↦ some k2
    | some p ↦ finalizar_proceso s.pid p.estado_actual ahora k2
  ])
  finalizar_esperando ss ahora k3

-- The array of the map's entry after `append(xs[:pos], xs[pos+1:]...)`, which moves the rest down in
-- it: the entry keeps its length.
abbrev pub corridas : ℕ → List InstanciaIo → List InstanciaIo
corridas pos xs = take pos xs ++ drop (pos + 1) xs ++ drop (length xs - 1) xs

-- DesconexionIO over the entry of the device, with the pid that the instance had, if any. An instance that is not found is the
-- index -1 of a slice. The second result is false where the source returns without an answer.
unfoldable pub desconectar : EntradaMapaIo → ℕ → ℕ → Option ℕ → ℕ → Kernel → Option (Kernel × Bool)
unfolding buscar_instancia_io finalizar_esperando finalizar_proceso
desconectar io nombre_io nombre_instancia pid_proceso ahora k = do
  pos ← buscar_instancia_io nombre_io nombre_instancia k
  let quedan = take pos io.instancias ++ drop (pos + 1) io.instancias
  let io' : EntradaMapaIo = record io { instancias = quedan }
  (k1, sigue) ← (elim pid_proceso [
    | none ↦ some (k, true)
    | some pid ↦ elim (k.mapa_procesos pid) [
      | none ↦
          some (con_io nombre_io (record io { instancias = corridas pos io.instancias }) k, false)
      | some p ↦ do k' ← finalizar_proceso pid p.estado_actual ahora k; some (k', true)
    ]
  ])
  (if not sigue then some (k1, false) else (do
    k2 ← (elim quedan [
      | x ∷ xs ↦ some k1
      | [] ↦ do
        k' ← finalizar_esperando io.cola_procesos_esperando ahora k1
        some (record k' { mapa_ios = borrar k'.mapa_ios nombre_io })
    ])
    some (con_io nombre_io io' k2, true)))

unfoldable pub desconexion_io : ℕ → ℕ → Option ℕ → ℕ → Kernel → Option (Kernel × Bool)
unfolding desconectar
desconexion_io nombre_io nombre_instancia pid_proceso ahora k =
    desconectar (io_de nombre_io k) nombre_io nombre_instancia pid_proceso ahora k

-- The device takes the process, or puts it in its queue.
unfoldable pub pedir_io : SyscallIo → Kernel → Kernel
unfolding buscar_instancia_io_libre enviar_solicitud_io
pedir_io s k =
    let io = io_de s.nombre_io k in
    let espera =
      con_io s.nombre_io
        (record io { cola_procesos_esperando = io.cola_procesos_esperando ++ s ∷ [] }) k in
    elim (buscar_instancia_io_libre s.nombre_io k) [
      | none ↦ espera
      | some pos ↦ elim (get_elem? io.instancias pos) [
        | none ↦ espera
        | some x ↦
            con_io s.nombre_io
              (record io {
                instancias = set io.instancias pos (record x { pid_proceso_actual = some s.pid });
              })
              (enviar_solicitud_io x s.pid s.tiempo k)
      ]
    ]

-- The second result is the goroutine of BloquearProceso, where one is started.
unfoldable pub manejar_io : SyscallIo → ℕ → Kernel → Option (Kernel × Option ℕ)
unfolding pedir_io verificar_existencia_io bloquear_proceso finalizar_proceso liberar_cpu
manejar_io s ahora k = do
  k1 ← lock_proceso s.pid k
  elim (k1.mapa_procesos s.pid) [
    | none ↦ do k2 ← unlock_proceso s.pid k1; some (k2, none)
    | some p ↦
        if not (codigo p.estado_actual == codigo execute)
        then (do k2 ← unlock_proceso s.pid k1; some (k2, none))
        else (if not (verificar_existencia_io s.nombre_io k1)
            then (do
              k2 ← unlock_proceso s.pid k1
              k3 ← finalizar_proceso s.pid execute ahora k2
              k4 ← liberar_cpu s.nombre_cpu k3
              some (k4, none))
            else (do
              k2 ← actualizar_pc s.pid s.pc k1
              (k3, sesion) ← bloquear_proceso s.pid ahora (pedir_io s k2)
              k4 ← unlock_proceso s.pid k3
              k5 ← liberar_cpu s.nombre_cpu k4
              some (k5, sesion)))
  ]
