-- ===== src/Kernel/Invariante/Rafagas.antt =====
-- The rounds of the schedulers that order by burst keep the invariant.
use conurban_os.Prelude.{
  false, arith, ℕ, ◌≡◌, ap, inl, inr, Bool, Option, some, bind_some, some_inj, Bool-cases,
  get_elem?, refl,
}
use conurban_os.Kernel.Estado.{
  ready, execute, ListaCpu, Kernel, AlgoritmoCorto, fifo, sjf, srt, sin_algoritmo,
}
use conurban_os.Kernel.Orden.{Sort, Estimados}
use conurban_os.Kernel.Colas.{lock_cola, unlock_cola}
use conurban_os.Kernel.Cpus.{elegir_cpu_libre, hay_cpus_libres}
use conurban_os.Kernel.Largo.{todos}
use conurban_os.Kernel.Corto.{
  esperar, con_cola_tomada, hay_procesos_en_ready, existe, menor_estimado, estimado,
  ordenar_ready_por_rafaga, ejecutar_un_proceso_sjf, planificador_sjf,
  buscar_proceso_de_menor_rafaga_restante, verificar_desalojo, desalojar, planificador_srt,
  ronda_srt, planificador_fifo, planificador_corto,
}
use conurban_os.Kernel.Invariante.{
  caso, si_some, Bien, MismaVista, vista_trans, vista-Bien, lock_cola-vista, unlock_cola-vista,
}
use conurban_os.Kernel.Invariante.Comienzo.{ordenada}
use conurban_os.Kernel.Invariante.Rondas.{cuentas-Bien}
use conurban_os.Kernel.Invariante.Despacho.{
  elegir_cpu_libre-vista, despachar-Bien, esperar-vista, desalojar-Bien, planificador_fifo-Bien,
}

module _ (sort : Sort) (est : Estimados) where
  pub ordenar_ready-Bien :
      (k : Kernel) {k' : Kernel} → ordenar_ready_por_rafaga sort est k ≡ some k' → Bien k → Bien k'
  unfolding ordenar_ready_por_rafaga
  ordenar_ready-Bien k h b =
      rw (← si_some (todos (existe sort est k) (k.cola ready)) h)
        (cuentas-Bien (ordenada sort (menor_estimado sort est k) ready k) b)

  ejecutar_un_proceso_sjf-Bien :
      (ahora : ℕ) (k : Kernel) {k' : Kernel}
      → ejecutar_un_proceso_sjf sort est ahora k ≡ some k'
      → Bien k
      → Bien k'
  unfolding ejecutar_un_proceso_sjf
  ejecutar_un_proceso_sjf-Bien ahora k h b =
      let k1 = (elegir_cpu_libre k).0 in
      let b1 = vista-Bien (elegir_cpu_libre-vista k) b in
      elim (caso (elegir_cpu_libre k).1 _ _ h) [
        | inl nada ↦ rw (← some_inj nada) b1
        | inr (cpu, _, sigue) ↦
            let (k2, toma, h1) = bind_some (lock_cola ready k1) _ sigue in
            let (k3, ordena, h2) = bind_some (ordenar_ready_por_rafaga sort est k2) _ h1 in
            let (pid, _, h3) = bind_some (get_elem? (k3.cola ready) 0) _ h2 in
            let (k4, suelta, h4) = bind_some (unlock_cola ready k3) _ h3 in
            let b3 = ordenar_ready-Bien k2 ordena (vista-Bien (lock_cola-vista ready k1 toma) b1) in
            despachar-Bien cpu pid ahora h4 (vista-Bien (unlock_cola-vista ready k3 suelta) b3)
      ]

  pub planificador_sjf-Bien :
      (ahora : ℕ) (k : Kernel) {k' : Kernel}
      → planificador_sjf sort est ahora k ≡ some k'
      → Bien k
      → Bien k'
  unfolding planificador_sjf
  planificador_sjf-Bien ahora k h b =
      let (k1, espera, h1) = bind_some (esperar k) _ h in
      ejecutar_un_proceso_sjf-Bien ahora k1 h1 (vista-Bien (esperar-vista k espera) b)

  verificar_desalojo-Bien :
      (ahora : ℕ) (k : Kernel) {k' : Kernel} {s : Option ℕ}
      → verificar_desalojo sort est ahora k ≡ some (k', s)
      → Bien k
      → Bien k'
  unfolding verificar_desalojo
  verificar_desalojo-Bien ahora k h b =
      let (k1, a, h1) = bind_some (lock_cola execute k) _ h in
      let (r, _, h2) = bind_some (buscar_proceso_de_menor_rafaga_restante sort est ahora k1) _ h1 in
      let (k2, c, h3) = bind_some (lock_cola ready k1) _ h2 in
      let (k3, ordena, h4) = bind_some (ordenar_ready_por_rafaga sort est k2) _ h3 in
      let (primero, _, h5) = bind_some (get_elem? (k3.cola ready) 0) _ h4 in
      let (nueva, _, h6) = bind_some (estimado sort est k3 primero) _ h5 in
      let (k4, d, h7) = bind_some (unlock_cola ready k3) _ h6 in
      let (k5, f, h8) = bind_some (unlock_cola execute k4) _ h7 in
      let b2 =
        vista-Bien (vista_trans (lock_cola-vista execute k a) (lock_cola-vista ready k1 c)) b in
      let b5 =
        vista-Bien (vista_trans (unlock_cola-vista ready k3 d) (unlock_cola-vista execute k4 f))
          (ordenar_ready-Bien k2 ordena b2) in
      rw (← ap (λ q. q.0) (some_inj h8)) b5

  hay_procesos-vista :
      (k : Kernel) {k' : Kernel} {b : Bool}
      → hay_procesos_en_ready k ≡ some (k', b)
      → MismaVista k k'
  unfolding hay_procesos_en_ready
  hay_procesos-vista k h =
      let (k1, mira, h1) = bind_some (con_cola_tomada some k) _ h in
      let (k2, toma, suelta) = bind_some (lock_cola ready k) _ mira in
      rw (← ap (λ q. q.0) (some_inj h1))
        (vista_trans (lock_cola-vista ready k toma) (unlock_cola-vista ready k2 suelta))

  ronda_srt-Bien :
      (ahora : ℕ) (k : Kernel) {k' : Kernel} {s : Option (ℕ × ListaCpu × ℕ × ℕ)}
      → ronda_srt sort est ahora k ≡ some (k', s)
      → Bien k
      → Bien k'
  unfolding ronda_srt
  ronda_srt-Bien ahora k h b =
      let ((k1, hay), mira, h1) = bind_some (hay_procesos_en_ready k) _ h in
      let b1 = vista-Bien (hay_procesos-vista k mira) b in
      elim (Bool-cases hay) [
        | inr no_ ↦ rw (← ap (λ q. q.0) (some_inj (rw no_ at h1))) b1
        | inl si ↦ elim (Bool-cases (hay_cpus_libres k1)) [
          | inl libres ↦
              let (k2, ejecuta, h2) =
                bind_some (ejecutar_un_proceso_sjf sort est ahora k1) _ (rw (si, libres) at h1) in
              rw (← ap (λ q. q.0) (some_inj h2)) (ejecutar_un_proceso_sjf-Bien ahora k1 ejecuta b1)
          | inr ocupadas ↦
              let ((k2, a), verifica, h2) =
                bind_some (verificar_desalojo sort est ahora k1) _ (rw (si, ocupadas) at h1) in
              let b2 = verificar_desalojo-Bien ahora k1 verifica b1 in
              elim (caso a _ _ h2) [
                | inl nada ↦ rw (← ap (λ q. q.0) (some_inj nada)) b2
                | inr (pid, _, h3) ↦
                    let ((k3, espera), saca, h4) = bind_some (desalojar pid ahora k2) _ h3 in
                    rw (← ap (λ q. q.0) (some_inj h4)) (desalojar-Bien pid ahora saca b2)
              ]
        ]
      ]

  pub planificador_srt-Bien :
      (ahora : ℕ) (k : Kernel) {k' : Kernel} {s : Option (ℕ × ListaCpu × ℕ × ℕ)}
      → planificador_srt sort est ahora k ≡ some (k', s)
      → Bien k
      → Bien k'
  unfolding planificador_srt
  planificador_srt-Bien ahora k h b = elim (Bool-cases k.srt_replanificar) [
    | inl si ↦
        ronda_srt-Bien ahora (record k { srt_replanificar = false }) (rw si at h)
          (vista-Bien (record { cola = λ e. refl; mapa = λ a. refl; contador = refl }) b)
    | inr no_ ↦ let x = rw no_ at h in absurd (ground arith)
  ]

  pub planificador_corto-Bien :
      (algoritmo : AlgoritmoCorto) (ahora : ℕ) (k : Kernel) {k' : Kernel}
      {s : Option (ℕ × ListaCpu × ℕ × ℕ)}
      → planificador_corto sort est algoritmo ahora k ≡ some (k', s)
      → Bien k
      → Bien k'
  unfolding planificador_corto
  planificador_corto-Bien fifo ahora k h b =
      let (k1, da, fin) = bind_some (planificador_fifo ahora k) _ h in
      rw (← ap (λ q. q.0) (some_inj fin)) (planificador_fifo-Bien ahora da b)
  planificador_corto-Bien sjf ahora k h b =
      let (k1, da, fin) = bind_some (planificador_sjf sort est ahora k) _ h in
      rw (← ap (λ q. q.0) (some_inj fin)) (planificador_sjf-Bien ahora k da b)
  planificador_corto-Bien srt ahora k h b = planificador_srt-Bien ahora k h b
  planificador_corto-Bien sin_algoritmo ahora k h b = absurd (ground arith)
