-- ===== src/Casos/Nucleo.antt =====
-- The steps of the kernel at concrete inputs.
use conurban_os.Prelude.{◌≡◌, ◌<◌, refl, true, Option, none, some, arith, poner}
use conurban_os.Kernel.Estado.{
  Estado, ready, ProcesoKernel, Kernel, signal_pasar_proceso_a_ready, avisar_proceso_en_ready,
}
use conurban_os.Kernel.Colas.{
  lock_cola, unlock_cola, lock_proceso, unlock_proceso, new_a_ready, eliminar_proceso_de_cola,
  pasar_con_mutex, agregar_en, agregar_proceso_a_cola, cambiar_estado,
}
use conurban_os.Kernel.Orden.{veces}
use conurban_os.Kernel.Largo.{crear_proceso_nuevo, pasar_procesos_a_ready}
use conurban_os.Kernel.Invariante.Pasos.{Paso, Alcanza, Alcanza-exclusion}
use conurban_os.Casos.Ordenes.{burbuja, numeros}
use conurban_os.Casos.Colas.{vacio}

abbrev tras : Option Kernel → Kernel
tras none = vacio
tras (some k) = k

abbrev creado : Kernel
creado = tras (crear_proceso_nuevo burbuja "a" 64 5 vacio)

abbrev listo : Kernel
listo = tras (pasar_procesos_a_ready burbuja (λ pid. true) (λ pid. true) 7 creado)

se_crea : crear_proceso_nuevo burbuja "a" 64 5 vacio ≡ some creado
unfolding crear_proceso_nuevo lock_proceso unlock_proceso poner lock_cola unlock_cola
    signal_pasar_proceso_a_ready
se_crea = refl

se_planifica : pasar_procesos_a_ready burbuja (λ pid. true) (λ pid. true) 7 creado ≡ some listo
unfolding crear_proceso_nuevo pasar_procesos_a_ready lock_cola lock_proceso poner unlock_proceso
    unlock_cola signal_pasar_proceso_a_ready new_a_ready eliminar_proceso_de_cola pasar_con_mutex
    agregar_en agregar_proceso_a_cola cambiar_estado avisar_proceso_en_ready
se_planifica = refl

llega : Alcanza burbuja numeros vacio listo
llega =
    Alcanza.luego vacio creado listo
      (Alcanza.luego vacio vacio creado (Alcanza.quieto vacio)
        (Paso.crea "a" 64 5 vacio creado se_crea))
      (Paso.planifica (λ pid. true) (λ pid. true) 7 creado listo se_planifica)

esta_lista : 0 < veces 0 (listo.cola ready)
unfolding crear_proceso_nuevo pasar_procesos_a_ready lock_cola lock_proceso poner unlock_proceso
    unlock_cola signal_pasar_proceso_a_ready new_a_ready eliminar_proceso_de_cola pasar_con_mutex
    agregar_en agregar_proceso_a_cola cambiar_estado avisar_proceso_en_ready
esta_lista = omega arith

Alcanza-exclusion_example :
    (veces 0 (listo.cola ready) ≡ 1)
    × (0 < listo.pid_counter)
    × ((p : ProcesoKernel) → listo.mapa_procesos 0 ≡ some p → p.estado_actual ≡ ready)
    × ((e' : Estado) → 0 < veces 0 (listo.cola e') → ready ≡ e')
Alcanza-exclusion_example =
    Alcanza-exclusion burbuja numeros vacio listo ready 0
      (record { vacias = λ e. refl; sin_procesos = λ a. refl }) llega esta_lista
