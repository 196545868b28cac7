-- ===== src/Cpu/Ciclo/Interrupcion.antt =====
-- An interrupt that arrives while an instruction ends.
use conurban_os.Prelude.{ℕ, suc, ◌≡◌, refl, true, false, none, some, ap, some_inj}
use conurban_os.Cpu.Entorno.{Pcb, Cpu}
use conurban_os.Cpu.Ejecucion.{ResultadoEjecucion, ponerse_espera}
use conurban_os.Cpu.Ciclo.{
  recibir_interrupcion, responder_interrupcion, chequear_interrupcion, resolver,
}

-- An interrupt that arrives after the check, while a process leaves the CPU, is lost: the check saw
-- none, the round ends, and the flag is down while one handler more waits than before.
pub resolver-perdida :
    (pcb : Pcb) (c c1 c2 : Cpu) (resultado : ResultadoEjecucion)
    → c.hay_interrupcion ≡ false
    → chequear_interrupcion pcb ponerse_espera c ≡ some (c1, resultado)
    → resolver pcb resultado (recibir_interrupcion c1) ≡ some c2
    → (c2.hay_interrupcion ≡ false)
      × (c2.esperando ≡ suc c.esperando)
      × (c2.pc_interrupcion ≡ c.pc_interrupcion)
unfolding chequear_interrupcion resolver recibir_interrupcion
resolver-perdida pcb c c1 c2 resultado sin mira termina =
    let visto = some_inj (rw sin at mira) in
    let fin = some_inj (rw (← ap (λ r. r.1) visto, ← ap (λ r. r.0) visto) at termina) in
    (rw (← fin) refl, rw (← fin) refl, rw (← fin) refl)

-- A process that has sent a blocking call and is interrupted too: the handler that answers before
-- the round ends refuses, and the one that answers after it gives the program counter.
pub responder-carrera :
    (pcb : Pcb) (c : Cpu) (n : ℕ) (resultado : ResultadoEjecucion)
    → c.hay_interrupcion ≡ true
    → c.envie_syscall_bloqueante ≡ true
    → c.esperando ≡ suc n
    → (c1 : Cpu) × (c2 : Cpu) × (chequear_interrupcion pcb resultado c ≡ some (c1, ponerse_espera))
      × (resolver pcb ponerse_espera c1 ≡ some c2)
      × (responder_interrupcion c1 ≡ none)
      × (responder_interrupcion c2 ≡ some pcb.pc)
unfolding chequear_interrupcion resolver responder_interrupcion
responder-carrera pcb c n resultado hay envio espera =
    let c1 : Cpu = record c { pc_interrupcion = some pcb.pc; esperando = n } in
    let c2 : Cpu = record c1 { hay_interrupcion = false; envie_syscall_bloqueante = false } in
    (c1, c2, simp (hay, espera), refl, rw envio refl, refl)
