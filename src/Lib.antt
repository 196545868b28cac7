-- ===== src/Lib.antt =====
-- conurbanOS simulates an operating system in four programs that speak over HTTP: a kernel that
-- schedules processes, CPUs that run their instructions, a memory module, and I/O devices. A CPU
-- splits a logical address into the indices of a page table with several levels (its MMU), asks
-- its TLB or the memory module for the frame, and reads or writes through a page cache. The memory
-- module keeps the bytes, the marks of the taken frames, one page table for each process, and a
-- swap file for the suspended ones. The kernel keeps a queue for each state of a process; its
-- long-term scheduler admits the new and the suspended processes, its short-term one sends the
-- ready ones to the CPUs, and its handlers serve the system calls and the I/O devices. These files
-- model the memory module, the CPU and the kernel.
--
-- Files and code:
--   Memoria/Estado     the package variables of globals/memoria/globals.go as one record, and
--                      IncrementarMetrica of memoria/utils/utils.go
--   Memoria/Tabla      crearTabla, construirNivel, the descent of obtenerMarcoDesdeTabla
--   Memoria/Bytes      leer, escribir, actualizarPagina
--   Memoria/Marcos     buscarMarcosDisponibles, asignarFramesAProceso, CalcularMock
--   Memoria/Almacen    AlmacenarProceso
--   Memoria/Liberar    eliminarMarcosFisicos, recorrerTablaYLiberarMarcos, actualizarTablaPaginas
--                      (these six: memoria/utils/paginacion.go and memoria/utils/utils.go)
--   Memoria/Swap       memoria/utils/swap.go
--   Memoria/Procesos   memoria/utils/procesosController.go, escribirPaginas, generarMemoryDump
--   Memoria/Accesos    memoria/utils/paginacionController.go and instruccionesController.go
--   Cpu/Mmu            ExtraerEntradasYDesplazamiento and TraducirLogicaAFisica
--   Cpu/Tlb            NuevaTLB, BuscarMarcoEnTLB, ReemplazarEnTLB, CargarTLB
--   Cpu/Cache          BuscarPaginaEnCache, InsertarOReemplazarEnCache, buscarVictimaCLOCK,
--                      buscarVictimaCLOCKM, EscribirCache, LeerDeCache
--   Cpu/Direccion      ConseguirDireccionFisica, with the answer of PedirMarcoDePagina as an argument
--   Cpu/Instruccion    Decode
--   Cpu/Entorno        the variables of globals/cpu/globals.go, and the interface to the others
--   Cpu/Pedidos        the HTTP requests
--   Cpu/Ejecucion      Execute, PedirContenidoPagina, the write-back of a victim of the cache
--   Cpu/Ciclo          the loop of cpu/cpu.go, RecibirProcesoAEjecutar, RecibirInterrupcion
--                      (these nine: cpu/utils/utils.go and globals/cpu/globals.go)
--   Kernel/Estado       the variables of globals/kernel/globals.go as one record, the semaphores
--   Kernel/Comunicacion kernel/utils/planificadores/comunicacion.go
--   Kernel/Colas        the queues with their mutexes, and the changes of state of
--                       kernel/utils/planificadores/estadosController.go
--   Kernel/Orden        the estimate of a burst, and what sort.Slice is relied on for
--   Kernel/Cpus         the list of CPUs, of kernel/utils/general/misc.go and corto.go
--   Kernel/Corto        kernel/utils/planificadores/corto.go
--   Kernel/Medio        kernel/utils/planificadores/medio.go
--   Kernel/Largo        kernel/utils/planificadores/largo.go, kernel/utils/general/procesos.go
--   Kernel/Ios          kernel/utils/handlers/ioHandler.go
--   Kernel/Syscalls     kernel/utils/handlers/syscallHandler.go
--   Kernel/Invariante   the invariant of the queues, and that every step of the kernel keeps it
--   Sistema             the routes of memoria/memoria.go that the CPU's requests go to
-- A definition has the name of the function in snake_case. The modules below a component hold
-- its proofs; Prelude holds what all of them share, and Casos the theorems at concrete inputs.
--
-- How the code is read:
--   * Go's integers are natural numbers that do not overflow: sizes, addresses, pids and frames
--     are not negative. A string and a byte slice are lists of numbers; a map is a function to
--     Option.
--   * `none` as the result of a step is a panic: an index out of range, a division by 0, a nil
--     mutex, a nil pointer.
--   * A handler is one step over its decoded message, and a message that does not decode is
--     `none`. In the memory module the mutexes are left out but for the nil one of an unknown pid;
--     in the kernel a mutex is held or free, and a wait for a held one is `none` too. Delays and
--     logs are left out, the traversal that only logs a table among them.
--   * The memory answers one request at a time: what two requests do to each other between two locks
--     of a mutex is modelled only for AlmacenarProceso, whose search for free frames and whose marks
--     are also steps of their own; what a handler that panics leaves locked is not modelled.
--     In the kernel the handlers and the rounds are steps that may come in any order, and the parts
--     of a dispatch are also steps of their own, since a handler of a process can run between the
--     sending of the process to a CPU and its change to EXECUTE.
--   * The lines of a script file, whether the swap file opens, whether the dump file can be made
--     and the time of the clock are arguments. On an open swap file seeks and writes succeed.
--   * Loops are structural recursion. CLOCK is on fuel, one turn more than the cache has entries:
--     each turn that goes on resets one bit of reference. CLOCK-M calls itself on fuel 2: a second
--     pass that finds nothing resets the bit of the entry at the hand.
--   * An insertion into the cache gives the modified victim, and insertar_en_cache sends it to the
--     memory. An entry that was put in the cache is one object with the cache's, or a copy of it
--     with the same array; the step over the cache's entry stands for both.
--   * To the CPU the other programs are an interface, which Cpu/Pedidos fills from a network that
--     gives a status and a body for each request. A negative parameter of an instruction gives
--     `none`.
--   * A round of the CPU's loop is a step, and so are the two halves of the handler of interrupts;
--     the check for interrupts and what follows it are apart, since the handler can run between.
--   * The estimate of a burst is computed from the list of the bursts, as actualizarRafagas does
--     one after the other; the arithmetic of float64 is a parameter, and so is sort.Slice, which
--     permutes its slice and puts an element first that none precedes.
--   * A step of the kernel is a handler or one round of a scheduler's loop. What the other programs
--     answer is an argument, and what they are sent is recorded. The loops of the long-term
--     scheduler are on fuel, the length of their queue. The mutex of the devices, which the
--     handlers take first and give back, is left out.
--
-- Not modelled: the reading of configuration files, the start of the programs and their handshakes
-- but for what they store, the logs, the I/O device program (a wait between two requests), and the
-- functions of the CPU that nothing uses (EnviarDireccionAMemoria, EnviarPCBaKernel,
-- RecibirPCBDeKernel).
pub mod Prelude
pub mod Memoria
pub mod Cpu
pub mod Kernel
pub mod Sistema
pub mod Casos
