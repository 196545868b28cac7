-- ===== src/Cpu/Ciclo.antt =====
-- The loop of cpu/cpu.go, and the handlers RecibirProcesoAEjecutar and RecibirInterrupcion of
-- cpu/utils/utils.go. The wait for Sem, once before the first round, and its signals are left out. The
-- steps between which a handler can run while an instruction ends are apart. A step that waits, or
-- panics, is `none`.
pub mod Interrupcion
use conurban_os.Prelude.{
  ℕ, zero, suc, List, [], ◌∷◌, ◌++◌, Bool, true, false, Option, none, some, ◌>>=◌, ltb,
  if◌then◌else◌, length,
}
use conurban_os.Cpu.Instruccion.{decode}
use conurban_os.Cpu.Entorno.{Pcb, Cpu, Servicio}
use conurban_os.Cpu.Ejecucion.{
  ResultadoEjecucion, continuar_ejecucion, ponerse_espera, error_ejecucion, execute,
}

-- A send on ColaDeEjecucion, which has 10 places, by RecibirProcesoAEjecutar and by the loop.
unfoldable pub encolar : Pcb → Cpu → Option Cpu
encolar pcb c =
    if ltb (length c.cola_de_ejecucion) 10
    then some (record c { cola_de_ejecucion = c.cola_de_ejecucion ++ pcb ∷ [] })
    else none

-- RecibirInterrupcion up to its wait.
unfoldable pub recibir_interrupcion : Cpu → Cpu
recibir_interrupcion c = record c { hay_interrupcion = true; esperando = suc c.esperando }

-- RecibirInterrupcion after its wait: the program counter, or none where it answers bad request.
unfoldable pub responder_interrupcion : Cpu → Option ℕ
responder_interrupcion c = if c.envie_syscall_bloqueante then none else c.pc_interrupcion

-- The check for interrupts: the signal waits for a handler that waits.
unfoldable pub chequear_interrupcion :
    Pcb → ResultadoEjecucion → Cpu → Option (Cpu × ResultadoEjecucion)
chequear_interrupcion pcb resultado c =
    if c.hay_interrupcion
    then (elim c.esperando [
      | zero ↦ none
      | suc n ↦ some (record c { pc_interrupcion = some pcb.pc; esperando = n }, ponerse_espera)
    ])
    else some (c, resultado)

-- The switch on the result, and the end of the round.
unfoldable pub resolver : Pcb → ResultadoEjecucion → Cpu → Option Cpu
unfolding encolar
resolver pcb continuar_ejecucion c = encolar pcb c
resolver pcb ponerse_espera c =
    some (record c { hay_interrupcion = false; envie_syscall_bloqueante = false })
resolver pcb error_ejecucion c = some (record c { envie_syscall_bloqueante = false })

unfoldable pub terminar_ciclo : Pcb → ResultadoEjecucion → Cpu → Option Cpu
unfolding chequear_interrupcion resolver
terminar_ciclo pcb resultado c = do
  (c1, resultado1) ← chequear_interrupcion pcb resultado c
  resolver pcb resultado1 c1

module _ (s : Servicio) where
  -- One round. An error drops the PCB.
  unfoldable pub ejecutar_pcb : List ℕ → ℕ → Pcb → Cpu × s.Externo → Option (Cpu × s.Externo)
  ejecutar_pcb detras ahora pcb (c, m) =
      let r = s.solicitar_instruccion pcb.pid pcb.pc m in
      elim r.1 [
        | none ↦ some (c, r.0)
        | some instruccion ↦ elim (decode instruccion) [
          | none ↦ some (c, r.0)
          | some inst_deco ↦ do
            ((c1, m1), pcb1, resultado, error) ← execute s inst_deco detras ahora pcb (c, r.0)
            (if error
                then some (c1, m1)
                else (do c2 ← terminar_ciclo pcb1 resultado c1; some (c2, m1)))
        ]
      ]

  unfoldable pub ciclo : List ℕ → ℕ → Cpu × s.Externo → Option (Cpu × s.Externo)
  ciclo detras ahora (c, m) = elim c.cola_de_ejecucion [
    | [] ↦ none
    | pcb ∷ resto ↦ ejecutar_pcb detras ahora pcb (record c { cola_de_ejecucion = resto }, m)
  ]
