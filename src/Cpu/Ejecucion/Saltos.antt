-- ===== src/Cpu/Ejecucion/Saltos.antt =====
-- The instructions that leave the memory alone.
use conurban_os.Prelude.{
  sym, some_inj, ℕ, suc, ◌≡◌, refl, ap, ◌∙◌, List, [], ◌∷◌, Bool, true, false, Option, some, length,
  Bool-cases, inl, inr, arith, if◌then◌else◌,
}
use conurban_os.Cpu.Instruccion.{
  InstruccionDecodificada, Operacion, write, read, goto, io, init_proc, dump_memory, exit, noop,
  operacion, parse_int, cantidad_parametros, decode,
}
use conurban_os.Cpu.Instruccion.Formato.{decode-Admitida}
use conurban_os.Cpu.Entorno.{
  Pcb, Cpu, Syscall, syscall_io, syscall_init, syscall_dump, syscall_exit, Servicio,
}
use conurban_os.Cpu.Ejecucion.{
  ResultadoEjecucion, continuar_ejecucion, ponerse_espera, error_ejecucion, pedir_syscall, ejecutar,
  execute,
}

-- The instructions but READ and WRITE.
abbrev pub sin_memoria : Operacion → Bool
sin_memoria write = false
sin_memoria read = false
sin_memoria _ = true

-- The parameter that is a number.
abbrev pub numerico : Operacion → List (List ℕ) → Option ℕ
numerico goto (p ∷ ps) = parse_int p
numerico io (p ∷ q ∷ ps) = parse_int q
numerico init_proc (p ∷ q ∷ ps) = parse_int q
numerico _ ps = some 0

-- The program counter that the instruction leaves.
abbrev pub pc_siguiente : Operacion → ℕ → ℕ → ℕ
pc_siguiente goto n pc = n
pc_siguiente exit n pc = pc
pc_siguiente _ n pc = suc pc

abbrev pub bloquea : Operacion → Bool
bloquea io = true
bloquea dump_memory = true
bloquea exit = true
bloquea _ = false

abbrev pub es_syscall : Operacion → Bool
es_syscall goto = false
es_syscall noop = false
es_syscall _ = true

-- The flag of the blocking calls, up; the TLB, the cache and the rest are the same.
abbrev pub con_syscall : Bool → Cpu → Cpu
con_syscall b c = if b then record c { envie_syscall_bloqueante = true } else c

-- What an instruction without memory does.
pub record Saltada (o : Operacion) (n : ℕ) (pcb pcb' : Pcb) (c c' : Cpu)
    (resultado : ResultadoEjecucion) (error : Bool) : Type 0 where
  pub cpu : c' ≡ con_syscall (bloquea o) c
  pub pid : pcb'.pid ≡ pcb.pid
  pub pc : pcb'.pc ≡ pc_siguiente o n pcb.pc
  pub sigue : es_syscall o ≡ false → (resultado ≡ continuar_ejecucion) × (error ≡ false)
  pub espera : es_syscall o ≡ true → error ≡ false → resultado ≡ ponerse_espera

module _ (s : Servicio) where
  abbrev Hecha :
      Operacion
      → ℕ
      → Pcb
      → Cpu
      → Option ((Cpu × s.Externo) × Pcb × ResultadoEjecucion × Bool)
      → Type 0
  Hecha o n pcb c r =
      (c' : Cpu) × (m' : s.Externo) × (pcb' : Pcb) × (resultado : ResultadoEjecucion)
      × (error : Bool) × (r ≡ some ((c', m'), pcb', resultado, error))
      × Saltada o n pcb pcb' c c' resultado error

  syscall_lem :
      (o : Operacion) (n : ℕ) (llamada : Syscall) (pcb pcb' : Pcb) (c : Cpu) (m : s.Externo)
      → es_syscall o ≡ true
      → pcb'.pid ≡ pcb.pid
      → pcb'.pc ≡ pc_siguiente o n pcb.pc
      → Hecha o n pcb c (some (pedir_syscall s llamada (bloquea o) pcb' (c, m)))
  unfolding pedir_syscall
  syscall_lem o n llamada pcb pcb' c m es mismo avanza = elim (Bool-cases (s.syscall llamada m).1) [
    | inl si ↦ (
      con_syscall (bloquea o) c,
      (s.syscall llamada m).0,
      pcb',
      ponerse_espera,
      false,
      rw (pedir_syscall, si) refl,
      record {
        cpu = refl;
        pid = mismo;
        pc = avanza;
        sigue = λ no_. absurd (ground arith);
        espera = λ _ _. refl;
      },
    )
    | inr no_ ↦ (
      con_syscall (bloquea o) c,
      (s.syscall llamada m).0,
      pcb',
      error_ejecucion,
      true,
      rw (pedir_syscall, no_) refl,
      record {
        cpu = refl;
        pid = mismo;
        pc = avanza;
        sigue = λ no'. absurd (ground arith);
        espera = λ _ malo. absurd (ground arith);
      },
    )
  ]

  salto_lem :
      (o : Operacion) (n : ℕ) (pcb pcb' : Pcb) (c : Cpu) (m : s.Externo)
      → es_syscall o ≡ false
      → con_syscall (bloquea o) c ≡ c
      → pcb'.pid ≡ pcb.pid
      → pcb'.pc ≡ pc_siguiente o n pcb.pc
      → Hecha o n pcb c (some ((c, m), pcb', continuar_ejecucion, false))
  salto_lem o n pcb pcb' c m es queda mismo avanza = (
    c,
    m,
    pcb',
    continuar_ejecucion,
    false,
    refl,
    record {
      cpu = sym queda;
      pid = mismo;
      pc = avanza;
      sigue = λ _. (refl, refl);
      espera = λ si. absurd (ground arith);
    },
  )

  ejecutar_lem :
      (o : Operacion) (ps : List (List ℕ)) (detras : List ℕ) (ahora n : ℕ) (pcb : Pcb) (c : Cpu)
      (m : s.Externo)
      → length ps ≡ cantidad_parametros o
      → sin_memoria o ≡ true
      → numerico o ps ≡ some n
      → Hecha o n pcb c (ejecutar s o ps detras ahora pcb (c, m))
  unfolding ejecutar
  ejecutar_lem write ps detras ahora n pcb c m largo sin es = absurd (ground arith)
  ejecutar_lem read ps detras ahora n pcb c m largo sin es = absurd (ground arith)
  ejecutar_lem goto [] detras ahora n pcb c m largo sin es = absurd (omega (arith, largo))
  ejecutar_lem goto (p ∷ ps) detras ahora n pcb c m largo sin es =
      rw es (salto_lem goto n pcb (record pcb { pc = n }) c m refl refl refl refl)
  ejecutar_lem io [] detras ahora n pcb c m largo sin es = absurd (omega (arith, largo))
  ejecutar_lem io (p ∷ []) detras ahora n pcb c m largo sin es = absurd (omega (arith, largo))
  ejecutar_lem io (p ∷ q ∷ ps) detras ahora n pcb c m largo sin es = rw es (
      syscall_lem io n (syscall_io p c.nombre_cpu n pcb.pid (suc pcb.pc)) pcb
        (record pcb { pc = suc pcb.pc }) c m refl refl refl)
  ejecutar_lem init_proc [] detras ahora n pcb c m largo sin es = absurd (omega (arith, largo))
  ejecutar_lem init_proc (p ∷ []) detras ahora n pcb c m largo sin es =
      absurd (omega (arith, largo))
  ejecutar_lem init_proc (p ∷ q ∷ ps) detras ahora n pcb c m largo sin es = rw es (
      syscall_lem init_proc n (syscall_init n p c.nombre_cpu pcb.pid (suc pcb.pc)) pcb
        (record pcb { pc = suc pcb.pc }) c m refl refl refl)
  ejecutar_lem dump_memory ps detras ahora n pcb c m largo sin es =
      syscall_lem dump_memory n (syscall_dump pcb.pid (suc pcb.pc) c.nombre_cpu) pcb
        (record pcb { pc = suc pcb.pc }) c m refl refl refl
  ejecutar_lem exit ps detras ahora n pcb c m largo sin es =
      syscall_lem exit n (syscall_exit pcb.pid c.nombre_cpu) pcb pcb c m refl refl refl
  ejecutar_lem noop ps detras ahora n pcb c m largo sin es =
      salto_lem noop n pcb (record pcb { pc = suc pcb.pc }) c m refl refl refl refl

  -- A decoded instruction but READ and WRITE, whose number is not negative: its execution does not
  -- panic. It leaves the process, and the CPU but for the flag of a blocking call, and its program
  -- counter is the number of GOTO, the same for EXIT, and the next one otherwise; a system call that
  -- is answered makes the CPU wait, and GOTO and NOOP go on.
  pub execute-Saltada :
      (instruccion detras : List ℕ) (i : InstruccionDecodificada) (o : Operacion) (ahora n : ℕ)
      (pcb : Pcb) (c : Cpu) (m : s.Externo)
      → decode instruccion ≡ some i
      → operacion i.nombre ≡ some o
      → sin_memoria o ≡ true
      → numerico o i.parametros ≡ some n
      → (c' : Cpu) × (m' : s.Externo) × (pcb' : Pcb) × (resultado : ResultadoEjecucion)
        × (error : Bool) × (execute s i detras ahora pcb (c, m)
            ≡ some ((c', m'), pcb', resultado, error))
        × Saltada o n pcb pcb' c c' resultado error
  unfolding execute operacion
  execute-Saltada instruccion detras i o ahora n pcb c m sale es sin valor =
      let (o', es', largo, _, _) = decode-Admitida instruccion i sale in
      let mismo : o' ≡ o = some_inj (sym es' ∙ es) in
      rw es (
        ejecutar_lem o i.parametros detras ahora n pcb c m (largo ∙ ap cantidad_parametros mismo)
          sin valor)
