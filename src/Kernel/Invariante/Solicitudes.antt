-- ===== src/Kernel/Invariante/Solicitudes.antt =====
-- The system calls that ask for a process or for a device keep the invariant.
use conurban_os.Prelude.{
  ℕ, ◌≡◌, refl, ap, inl, inr, Option, some, bind_some, some_inj, Bool-cases, Option-cases,
  get_elem?, ◌==◌,
}
use Prim.Native.String.{String}
use conurban_os.Kernel.Estado.{execute, codigo, Kernel, SyscallIo}
use conurban_os.Kernel.Orden.{Sort}
use conurban_os.Kernel.Colas.{lock_proceso, unlock_proceso}
use conurban_os.Kernel.Cpus.{buscar_cpu, liberar_cpu}
use conurban_os.Kernel.Largo.{crear_proceso_nuevo, finalizar_proceso}
use conurban_os.Kernel.Medio.{bloquear_proceso}
use conurban_os.Kernel.Corto.{actualizar_pc}
use conurban_os.Kernel.Ios.{
  io_de, enviar_solicitud_io, buscar_instancia_io_libre, verificar_existencia_io, pedir_io,
  manejar_io,
}
use conurban_os.Kernel.Syscalls.{manejar_init_proc}
use conurban_os.Kernel.Invariante.{
  caso, Bien, MismaVista, vista_trans, vista-Bien, lock_proceso-vista, unlock_proceso-vista,
}
use conurban_os.Kernel.Invariante.Ubicado.{Ubicado-Bien}
use conurban_os.Kernel.Invariante.Bloqueo.{bloquear_proceso-Bien}
use conurban_os.Kernel.Invariante.Comienzo.{crear_proceso_nuevo-Ubicado}
use conurban_os.Kernel.Invariante.Despacho.{actualizar_pc-Bien, enviar_proceso_a_cpu-vista}
use conurban_os.Kernel.Invariante.Dispositivos.{finalizar-Bien, liberar_cpu-vista}

pub manejar_init_proc-Bien :
    (sort : Sort) (archivo : String) (tamanio nombre_cpu pid pc ahora : ℕ) (k : Kernel)
    {k' : Kernel}
    → manejar_init_proc sort archivo tamanio nombre_cpu pid pc ahora k ≡ some k'
    → Bien k
    → Bien k'
unfolding manejar_init_proc
manejar_init_proc-Bien sort archivo tamanio nombre_cpu pid pc ahora k h b =
    let (k1, crea, h1) = bind_some (crear_proceso_nuevo sort archivo tamanio ahora k) _ h in
    let (pos, _, h2) = bind_some (buscar_cpu nombre_cpu k1) _ h1 in
    let (cpu, _, fin) = bind_some (get_elem? k1.lista_cpus pos) _ h2 in
    rw (← some_inj fin) (
      vista-Bien (enviar_proceso_a_cpu-vista cpu pid pc k1)
        (Ubicado-Bien (crear_proceso_nuevo-Ubicado sort archivo tamanio ahora k crea b).0 b))

pedir_io-vista : (s : SyscallIo) (k : Kernel) → MismaVista k (pedir_io s k)
unfolding pedir_io enviar_solicitud_io
pedir_io-vista s k = elim (Option-cases (buscar_instancia_io_libre s.nombre_io k)) [
  | inl nada ↦ rw (pedir_io, nada) (record { cola = λ e. refl; mapa = λ a. refl; contador = refl })
  | inr (pos, hay) ↦ elim (Option-cases (get_elem? (io_de s.nombre_io k).instancias pos)) [
    | inl nada ↦
        rw (pedir_io, hay, nada) (record { cola = λ e. refl; mapa = λ a. refl; contador = refl })
    | inr (x, esta) ↦
        rw (pedir_io, hay, esta) (record { cola = λ e. refl; mapa = λ a. refl; contador = refl })
  ]
]

pub manejar_io-Bien :
    (s : SyscallIo) (ahora : ℕ) (k : Kernel) {k' : Kernel} {sesion : Option ℕ}
    → manejar_io s ahora k ≡ some (k', sesion)
    → Bien k
    → Bien k'
unfolding manejar_io
manejar_io-Bien s ahora k h b =
    let (k1, toma, h1) = bind_some (lock_proceso s.pid k) _ h in
    let b1 = vista-Bien (lock_proceso-vista s.pid k toma) b in
    elim (caso (k1.mapa_procesos s.pid) _ _ h1) [
      | inl nada ↦
          let (k2, suelta, fin) = bind_some (unlock_proceso s.pid k1) _ nada in
          rw (← ap (λ q. q.0) (some_inj fin)) (vista-Bien (unlock_proceso-vista s.pid k1 suelta) b1)
      | inr (p, hay, h2) ↦ elim (Bool-cases (codigo p.estado_actual == codigo execute)) [
        | inr no_ ↦
            let (k2, suelta, fin) = bind_some (unlock_proceso s.pid k1) _ (rw no_ at h2) in
            rw (← ap (λ q. q.0) (some_inj fin))
              (vista-Bien (unlock_proceso-vista s.pid k1 suelta) b1)
        | inl si ↦
            let h3 = rw si at h2 in
            elim (Bool-cases (verificar_existencia_io s.nombre_io k1)) [
              | inr no_hay ↦
                  let (k2, suelta, h4) = bind_some (unlock_proceso s.pid k1) _ (rw no_hay at h3) in
                  let (k3, acaba, h5) = bind_some (finalizar_proceso s.pid execute ahora k2) _ h4 in
                  let (k4, libera, fin) = bind_some (liberar_cpu s.nombre_cpu k3) _ h5 in
                  let w = unlock_proceso-vista s.pid k1 suelta in
                  rw (← ap (λ q. q.0) (some_inj fin)) (
                    vista-Bien (liberar_cpu-vista s.nombre_cpu k3 libera)
                      (finalizar-Bien s.pid execute ahora k2 acaba (vista-Bien w b1)))
              | inl existe ↦
                  let (k2, cambia, h4) =
                    bind_some (actualizar_pc s.pid s.pc k1) _ (rw existe at h3) in
                  let ((k3, otra), bloquea, h5) =
                    bind_some (bloquear_proceso s.pid ahora (pedir_io s k2)) _ h4 in
                  let (k4, suelta, h6) = bind_some (unlock_proceso s.pid k3) _ h5 in
                  let (k5, libera, fin) = bind_some (liberar_cpu s.nombre_cpu k4) _ h6 in
                  let b2 =
                    vista-Bien (pedir_io-vista s k2) (actualizar_pc-Bien s.pid s.pc k1 cambia b1) in
                  rw (← ap (λ q. q.0) (some_inj fin)) (
                    vista-Bien
                      (vista_trans (unlock_proceso-vista s.pid k3 suelta)
                        (liberar_cpu-vista s.nombre_cpu k4 libera))
                      (bloquear_proceso-Bien s.pid ahora bloquea b2))
            ]
      ]
    ]
