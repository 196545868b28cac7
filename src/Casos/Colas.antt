-- ===== src/Casos/Colas.antt =====
-- The changes of state of the kernel at concrete inputs.
use conurban_os.Prelude.{ℕ, ◌≡◌, refl, List, [], ◌∷◌, true, false, none, some, arith}
use conurban_os.Kernel.Estado.{Estado, ready, blocked, ProcesoKernel, Kernel, fifo}
use conurban_os.Kernel.Colas.{
  lock_cola, lock_proceso, ready_a_execute, buscar_pid_en_cola, eliminar_proceso_de_cola,
  agregar_proceso_a_cola, mover, cambiar_estado,
}
use conurban_os.Kernel.Colas.Cambios.{ready_a_execute-lock}
use conurban_os.Kernel.Colas.Mudanza.{Mudado, mover-Mudado}
use conurban_os.Kernel.Colas.Referencia.{colas-referencia}

abbrev colas : Estado → List ℕ
colas ready = 7 ∷ []
colas blocked = 3 ∷ 4 ∷ 5 ∷ []
colas _ = []

abbrev bloqueado : ProcesoKernel
bloqueado = record {
  pid = 4;
  pc = 0;
  me = λ e. 1;
  mt = λ e. 0;
  estado_actual = blocked;
  rafagas = [];
  ultimo_cambio_de_estado = 10;
  archivo_pseudocodigo = "";
  tamanio = 64;
}

abbrev pub vacio : Kernel
vacio = record {
  cola = λ e. [];
  tomada = λ e. false;
  mapa_procesos = λ pid. none;
  procesos_mutex = λ pid. none;
  algoritmo = fifo;
  pmcp = false;
  pid_counter = 0;
  lista_cpus = [];
  mapa_ios = λ nombre. none;
  cantidad_sesiones_io = λ pid. none;
  sem_cpus = 0;
  sem_procesos_en_ready = 0;
  sem_pasar_proceso_a_ready = 0;
  srt_replanificar = false;
  enviados = [];
}

abbrev nucleo : Kernel
nucleo = record vacio {
  cola = colas;
  mapa_procesos = λ pid. some bloqueado;
  procesos_mutex = λ pid. some false;
}

no_lista : buscar_pid_en_cola 0 (colas ready) 4 ≡ none
unfolding buscar_pid_en_cola
no_lista = refl

ready_a_execute-lock_example :
    (k' : Kernel) × (ready_a_execute 4 20 nucleo ≡ some (k', false))
    × (lock_cola ready k' ≡ none)
    × (lock_proceso 4 k' ≡ none)
    × (k'.cola ≡ nucleo.cola)
ready_a_execute-lock_example = ready_a_execute-lock 4 20 nucleo refl refl no_lista

esta_bloqueada : (eliminar_proceso_de_cola (colas blocked) 4).1 ≡ true
unfolding eliminar_proceso_de_cola
esta_bloqueada = refl

mover-Mudado_example :
    (k' : Kernel) × (mover blocked ready (cambiar_estado 4 blocked ready 20) 4 nucleo
      ≡ some (k', true))
    × Mudado blocked ready 4 bloqueado nucleo k'
mover-Mudado_example =
    mover-Mudado blocked ready 4 20 bloqueado nucleo (λ h. absurd (omega (arith, h))) refl refl
      esta_bloqueada no_lista refl

colas-referencia_example :
    (eliminar_proceso_de_cola (3 ∷ 4 ∷ 5 ∷ 4 ∷ []) 4 ≡ (3 ∷ 5 ∷ 4 ∷ [], true))
    × (agregar_proceso_a_cola (3 ∷ 4 ∷ 5 ∷ 4 ∷ []) 4 ≡ (3 ∷ 4 ∷ 5 ∷ 4 ∷ [], false))
colas-referencia_example = colas-referencia (3 ∷ 4 ∷ 5 ∷ 4 ∷ []) 4
