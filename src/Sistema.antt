-- ===== src/Sistema.antt =====
-- The CPU and the memory module together: the routes that memoria/memoria.go registers, as the
-- network of the CPU's requests. A handler that panics gives no response.
pub mod Escritura
use conurban_os.Prelude.{
  ℕ, zero, suc, ◌+◌, [], ◌∷◌, ◌==◌, ltb, length, List, Bool, Option, none, some, if◌then◌else◌,
}
use Prim.Native.String.{String}
use conurban_os.Memoria.Estado.{Memoria}
use conurban_os.Memoria.Procesos.{
  Respuesta, ok, bad_request, not_implemented, internal_server_error, service_unavailable,
}
use conurban_os.Memoria.Accesos
use conurban_os.Memoria.Accesos.{Contestacion, contesta, falla}
use conurban_os.Cpu.Entorno.{Syscall}
use conurban_os.Cpu.Pedidos.{
  Pedido, obtener_instruccion, obtener_marco_proceso, leer_pagina,
  acceder_espacio_usuario_escritura, acceder_espacio_usuario_lectura, actualizar_pagina, al_kernel,
  Cuerpo, RespuestaHttp, sin_respuesta, respuesta, Red,
}

abbrev pub status : Respuesta → ℕ
status ok = 200
status bad_request = 400
status not_implemented = 501
status internal_server_error = 500
status service_unavailable = 503

abbrev pub sin_campos : Cuerpo
sin_campos = record { instruccion = none; marco = none; contenido = none }

-- The response of a handler, with the body of an answer.
abbrev pub responde {ℓ} :
    {A : Type ℓ}
    → (A → Cuerpo)
    → Memoria
    → Option (Memoria × Contestacion A)
    → Memoria × RespuestaHttp
responde cuerpo m none = (m, sin_respuesta)
responde cuerpo m (some (m', contesta a)) = (m', respuesta 200 (some (cuerpo a)))
responde cuerpo m (some (m', falla r)) = (m', respuesta (status r) none)

abbrev pub responde_estado : Memoria → Option (Memoria × Respuesta) → Memoria × RespuestaHttp
responde_estado m none = (m, sin_respuesta)
responde_estado m (some (m', r)) = (m', respuesta (status r) none)

-- A write to the address -1: the remainder of -1 is -1, or 0 for pages of one byte, an empty datum has
-- nothing to write and is answered as at the address 0, and an index of -1 panics.
abbrev pub escribir_en_menos_uno : ℕ → List ℕ → Memoria → Memoria × RespuestaHttp
escribir_en_menos_uno pid [] m = responde_estado m (
    Accesos.acceder_espacio_usuario_escritura
      (some (record { pid = pid; direccion_fisica = 0; dato = [] })) m)
escribir_en_menos_uno pid (c ∷ dato) m =
    let page_size = m.config.page_size in
    let caben : ℕ = if page_size == 1 then 1 else page_size + 1 in
    if page_size == 0
    then (m, sin_respuesta)
    else (if ltb caben (length (c ∷ dato))
        then (m, respuesta (status service_unavailable) none)
        else (m, sin_respuesta))

-- A read at the address -1 of no byte is answered as at the address 0.
abbrev pub leer_en_menos_uno : ℕ → ℕ → Memoria → Memoria × RespuestaHttp
leer_en_menos_uno pid zero m =
    responde (λ bytes. sin_campos) m
      (Accesos.acceder_espacio_usuario_lectura
        (some (record { pid = pid; posicion = 0; tamanio = 0 })) m)
leer_en_menos_uno pid (suc tamanio) m = (m, sin_respuesta)

-- The page at the address -1: the address is refused, but for pages of one byte, where the index of
-- -1 panics, and for pages of none, where the remainder does.
abbrev pub pagina_en_menos_uno : Memoria → Memoria × RespuestaHttp
pagina_en_menos_uno m =
    if ltb 1 m.config.page_size
    then (m, respuesta (status bad_request) none)
    else (m, sin_respuesta)

abbrev pub actualizar_en_menos_uno : List ℕ → Memoria → Memoria × RespuestaHttp
actualizar_en_menos_uno [] m =
    if m.config.page_size == 1
    then responde_estado m (Accesos.pedir_actualizar_pagina (some (0, [])) m)
    else pagina_en_menos_uno m
actualizar_en_menos_uno (c ∷ contenido) m = pagina_en_menos_uno m

-- A body of a read has the field "dato", which the CPU does not look for. The bytes of a line of a
-- script, and whether the kernel accepts a system call, are arguments. A handler that panics leaves the
-- mutexes that it has locked as they are (leer and escribir hold the mutex of the memory); here the
-- memory stays as it was, so that nothing is said of the requests after one without a response.
module _ (bytes_de : String → List ℕ) (acepta : Syscall → Bool) where
  unfoldable pub atender : Pedido → Memoria → Memoria × RespuestaHttp
  atender (obtener_instruccion pid pc) m =
      responde (λ s. record sin_campos { instruccion = some (bytes_de s) }) m
        (Accesos.enviar_instruccion (some (pid, pc)) m)
  atender (obtener_marco_proceso pid entradas) m =
      responde (λ f. record sin_campos { marco = some f }) m
        (Accesos.obtener_marco_proceso (some (pid, entradas)) m)
  atender (leer_pagina none) m = pagina_en_menos_uno m
  atender (leer_pagina (some direccion)) m =
      responde (λ bytes. record sin_campos { contenido = some bytes }) m
        (elim (Accesos.leer_pagina (some direccion) m) [ none ↦ none | some r ↦ some (m, r) ])
  atender (acceder_espacio_usuario_escritura pid none dato) m = escribir_en_menos_uno pid dato m
  atender (acceder_espacio_usuario_escritura pid (some direccion) dato) m = responde_estado m (
      Accesos.acceder_espacio_usuario_escritura
        (some (record { pid = pid; direccion_fisica = direccion; dato = dato })) m)
  atender (acceder_espacio_usuario_lectura pid none tamanio) m = leer_en_menos_uno pid tamanio m
  atender (acceder_espacio_usuario_lectura pid (some direccion) tamanio) m =
      responde (λ bytes. sin_campos) m
        (Accesos.acceder_espacio_usuario_lectura
          (some (record { pid = pid; posicion = direccion; tamanio = tamanio })) m)
  atender (actualizar_pagina pid none contenido) m = actualizar_en_menos_uno contenido m
  atender (actualizar_pagina pid (some direccion) contenido) m =
      responde_estado m (Accesos.pedir_actualizar_pagina (some (direccion, contenido)) m)
  atender (al_kernel llamada) m = (m, respuesta (if acepta llamada then 200 else 400) none)

  abbrev pub red_de_memoria : Red
  red_de_memoria = record { Externo = Memoria; post = atender }
