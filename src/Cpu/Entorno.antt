-- ===== src/Cpu/Entorno.antt =====
-- The state of the CPU, from globals/cpu/globals.go, and what it asks of the other programs with its
-- HTTP requests in cpu/utils/utils.go. These programs are a parameter: a state of their own, and for
-- each request what it does to that state and what it answers, where `none` or false is an error.
use conurban_os.Prelude.{ℕ, List, Bool, Option}
use conurban_os.Cpu.Tlb.{Tlb}
use conurban_os.Cpu.Cache.{Cache}

pub record Pcb : Type 0 where
  pub pid : ℕ
  pub pc : ℕ

-- The configuration that execution reads, the name of the CPU, and the variables. The channel of the
-- interrupts has no place, so `esperando` counts the handlers that wait at it.
pub record Cpu : Type 0 where
  pub tlb_entries : ℕ
  pub cache_entries : ℕ
  pub page_size : ℕ
  pub entries_per_page : ℕ
  pub number_of_levels : ℕ
  pub nombre_cpu : List ℕ
  pub tlb : Tlb
  pub el_cache : Cache
  pub envie_syscall_bloqueante : Bool
  pub hay_interrupcion : Bool
  pub pc_interrupcion : Option ℕ
  pub esperando : ℕ
  pub cola_de_ejecucion : List Pcb

-- The system calls with the fields of SyscallIO, SyscallInit, SyscallDump and SyscallExit.
pub data Syscall : Type 0 where
  syscall_io : (nombre_io nombre_cpu : List ℕ) (tiempo pid pc : ℕ) → Syscall
  syscall_init : (tamanio : ℕ) (archivo nombre_cpu : List ℕ) (pid pc : ℕ) → Syscall
  syscall_dump : (pid pc : ℕ) (nombre_cpu : List ℕ) → Syscall
  syscall_exit : (pid : ℕ) (nombre_cpu : List ℕ) → Syscall

-- A physical address is none where the source has -1.
pub record Servicio : Type 1 where
  pub Externo : Type 0
  pub solicitar_instruccion : ℕ → ℕ → Externo → Externo × Option (List ℕ)
  pub pedir_marco : ℕ → List ℕ → Externo → Externo × Option ℕ
  pub leer_pagina : Option ℕ → Externo → Externo × Option (List ℕ)
  pub escribir_dato : Option ℕ → List ℕ → ℕ → Externo → Externo × Bool
  pub leer_dato : Option ℕ → ℕ → ℕ → Externo → Externo × Option (List ℕ)
  pub actualizar_pagina : ℕ → Option ℕ → List ℕ → Externo → Externo × Bool
  pub syscall : Syscall → Externo → Externo × Bool
