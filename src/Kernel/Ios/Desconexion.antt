-- ===== src/Kernel/Ios/Desconexion.antt =====
-- What the disconnection of the last instance of a device leaves behind.
use conurban_os.Prelude.{
  ℕ, ◌≡◌, refl, sym, ap, ◌∙◌, inl, inr, List, [], ◌∷◌, Bool, some, none, bind_some, some_inj,
  Option-cases, ℕ_discrete, poner_self, ==_self, borrar, ◌>>=◌, Mapa, ◌==◌,
}
use conurban_os.Kernel.Estado.{Kernel, ProcesoKernel, SyscallIo, InstanciaIo, EntradaMapaIo}
use conurban_os.Kernel.Colas.{lock_proceso, unlock_proceso}
use conurban_os.Kernel.Largo.{finalizar_proceso}
use conurban_os.Kernel.Ios.{
  io_de, buscar_instancia_io, posicion_io, finalizar_esperando, desconexion_io, desconectar,
}
use conurban_os.Kernel.Invariante.{vista_trans, lock_proceso-vista, unlock_proceso-vista}
use conurban_os.Kernel.Invariante.Final.{Terminado, finalizar_proceso-Terminado}

-- None of these requests is of a process that the kernel knows.
abbrev pub SinProceso : Mapa ProcesoKernel → List SyscallIo → Type 0
SinProceso mapa [] = Unit
SinProceso mapa (s ∷ ss) = (mapa s.pid ≡ none) × SinProceso mapa ss

Terminado-none :
    {pid : ℕ} {k k' : Kernel} (a : ℕ)
    → Terminado pid k k'
    → k.mapa_procesos a ≡ none
    → k'.mapa_procesos a ≡ none
Terminado-none {pid} a t nada = elim (ℕ_discrete pid a) [
  | yes es ↦ rw (← es) t.borrado
  | no d ↦ t.los_demas a d ∙ nada
]

finalizar_esperando-SinProceso :
    (ss : List SyscallIo) (ahora : ℕ) (k : Kernel) {k' : Kernel}
    → finalizar_esperando ss ahora k ≡ some k'
    → SinProceso k'.mapa_procesos ss
      × ((a : ℕ) → k.mapa_procesos a ≡ none → k'.mapa_procesos a ≡ none)
unfolding finalizar_esperando
finalizar_esperando-SinProceso [] ahora k h =
    (tt, λ a nada. ap (λ q. q.mapa_procesos a) (sym (some_inj h)) ∙ nada)
finalizar_esperando-SinProceso (s ∷ ss) ahora k h =
    let (k1, toma, h1) = bind_some (lock_proceso s.pid k) _ h in
    let (k2, suelta, h2) = bind_some (unlock_proceso s.pid k1) _ h1 in
    let (k3, acaba, h3) =
      bind_some
        (elim (k1.mapa_procesos s.pid) [
          | none ↦ some k2
          | some p ↦ finalizar_proceso s.pid p.estado_actual ahora k2
        ])
        _ h2 in
    let w = unlock_proceso-vista s.pid k1 suelta in
    let v = vista_trans (lock_proceso-vista s.pid k toma) w in
    elim (Option-cases (k1.mapa_procesos s.pid)) [
      | inl ninguno ↦
          let mismo = some_inj (rw ninguno at acaba) in
          let (todas, quedan) = finalizar_esperando-SinProceso ss ahora k3 h3 in
          (
            (quedan s.pid (rw (← mismo) (w.mapa s.pid ∙ ninguno)), todas),
            λ a nada. quedan a (rw (← mismo) (v.mapa a ∙ nada)),
          )
      | inr (p, hay) ↦
          let termina = rw hay at acaba in
          let t = (finalizar_proceso-Terminado s.pid p.estado_actual ahora k2 termina).0 in
          let (todas, quedan) = finalizar_esperando-SinProceso ss ahora k3 h3 in
          (
            (quedan s.pid t.borrado, todas),
            λ a nada. quedan a (Terminado-none a t (v.mapa a ∙ nada)),
          )
    ]

abbrev sola : InstanciaIo → List SyscallIo → EntradaMapaIo
sola x ss = record { instancias = x ∷ []; cola_procesos_esperando = ss }

io_de-some :
    (nombre_io : ℕ) (k : Kernel) {io : EntradaMapaIo}
    → k.mapa_ios nombre_io ≡ some io
    → io_de nombre_io k ≡ io
io_de-some nombre_io k {io} hay =
    ap {B = EntradaMapaIo}
      (λ o. elim o [
        | none ↦ record { instancias = []; cola_procesos_esperando = [] }
        | some io' ↦ io'
      ])
      hay

halla_la_sola :
    (nombre_io : ℕ) (x : InstanciaIo) (ss : List SyscallIo) (k : Kernel)
    → k.mapa_ios nombre_io ≡ some (sola x ss)
    → buscar_instancia_io nombre_io x.nombre_instancia k ≡ some 0
unfolding buscar_instancia_io
halla_la_sola nombre_io x ss k hay =
    ap (λ io. posicion_io (λ y. y.nombre_instancia == x.nombre_instancia) 0 io.instancias)
      (io_de-some nombre_io k hay)
    ∙ rw (==_self x.nombre_instancia) refl

-- The disconnection of the only instance of a device, with no process in it, finishes the processes
-- that wait for the device, and yet leaves the device in the map with all of them in its queue: none
-- of them is in the map of processes.
pub desconexion_io-SinProceso :
    (nombre_io ahora : ℕ) (x : InstanciaIo) (ss : List SyscallIo) (k k' : Kernel) (b : Bool)
    → k.mapa_ios nombre_io ≡ some (sola x ss)
    → desconexion_io nombre_io x.nombre_instancia none ahora k ≡ some (k', b)
    → (k'.mapa_ios nombre_io ≡ some (record { instancias = []; cola_procesos_esperando = ss }))
      × SinProceso k'.mapa_procesos ss
unfolding desconexion_io desconectar
desconexion_io-SinProceso nombre_io ahora x ss k k' b hay h =
    let ni = x.nombre_instancia in
    let h0 : desconectar (sola x ss) nombre_io ni none ahora k ≡ some (k', b) =
      ap (λ io. desconectar io nombre_io ni none ahora k) (sym (io_de-some nombre_io k hay)) ∙ h in
    let h1 = rw (halla_la_sola nombre_io x ss k hay) at h0 in
    let (k2, vacia, fin) =
      bind_some
        (finalizar_esperando ss ahora k >>= λ k1.
          some (record k1 { mapa_ios = borrar k1.mapa_ios nombre_io }))
        _ h1 in
    let (k1, acaban, borra) = bind_some (finalizar_esperando ss ahora k) _ vacia in
    let (todas, _) = finalizar_esperando-SinProceso ss ahora k acaban in
    let entrada : EntradaMapaIo = record { instancias = []; cola_procesos_esperando = ss } in
    rw (← ap (λ q. q.0) (some_inj fin), ← some_inj borra)
      (poner_self (borrar k1.mapa_ios nombre_io) nombre_io entrada, todas)
