-- ===== src/Kernel/Colas/Cambios.antt =====
-- What the changes of state do.
use conurban_os.Prelude.{ℕ, ◌≡◌, refl, List, true, false, none, some, poner, ==_self}
use conurban_os.Kernel.Estado.{ready, en_estado, Kernel}
use conurban_os.Kernel.Colas.{
  lock_cola, ready_a_execute, lock_proceso, eliminar_proceso_de_cola, buscar_pid_en_cola,
}

no_esta :
    (cola : List ℕ) (pid : ℕ)
    → buscar_pid_en_cola 0 cola pid ≡ none
    → eliminar_proceso_de_cola cola pid ≡ (cola, false)
unfolding eliminar_proceso_de_cola
no_esta cola pid fuera = rw (eliminar_proceso_de_cola, fuera) refl

-- With the mutexes of the ready queue and of the process held.
abbrev trabado : ℕ → Kernel → Kernel
trabado pid k = record k {
  procesos_mutex = poner k.procesos_mutex pid true;
  tomada = en_estado k.tomada ready true;
}

-- ready_a_execute of a process that is not in the ready queue, where its mutex and that of the
-- queue are free, returns false with both held, and changes no queue: a further lock of either
-- waits.
pub ready_a_execute-lock :
    (pid ahora : ℕ) (k : Kernel)
    → k.procesos_mutex pid ≡ some false
    → k.tomada ready ≡ false
    → buscar_pid_en_cola 0 (k.cola ready) pid ≡ none
    → (k' : Kernel) × (ready_a_execute pid ahora k ≡ some (k', false))
      × (lock_cola ready k' ≡ none)
      × (lock_proceso pid k' ≡ none)
      × (k'.cola ≡ k.cola)
unfolding ready_a_execute lock_cola lock_proceso poner
ready_a_execute-lock pid ahora k libre cola_libre fuera = (
  trabado pid k,
  rw (libre, cola_libre, no_esta (k.cola ready) pid fuera) refl,
  refl,
  rw (==_self pid) refl,
  refl,
)
