-- ===== src/Cpu/Pedidos.antt =====
-- The HTTP requests of cpu/utils/utils.go over a network, which is a parameter: it gets the decoded
-- request, and gives no response, or a status and a body. An error of the encoding of a request does
-- not happen.
use conurban_os.Prelude.{ℕ, List, [], Bool, false, Option, none, some, ◌==◌, if◌then◌else◌}
use mathlib.Core.Option
use conurban_os.Cpu.Entorno.{Syscall, Servicio}

-- A request with the fields of SolicitudInstruccion, the struct of PedirMarcoDePagina,
-- LeerPaginaDTO, SolicitudEscritura, SolicitudLectura, SolicitudPaginaContenido or a system call.
pub data Pedido : Type 0 where
  obtener_instruccion : (pid pc : ℕ) → Pedido
  obtener_marco_proceso : (pid : ℕ) (entradas : List ℕ) → Pedido
  leer_pagina : (direccion_fisica : Option ℕ) → Pedido
  acceder_espacio_usuario_escritura : (pid : ℕ) (posicion : Option ℕ) (dato : List ℕ) → Pedido
  acceder_espacio_usuario_lectura : (pid : ℕ) (posicion : Option ℕ) (tamanio : ℕ) → Pedido
  actualizar_pagina : (pid : ℕ) (direccion_fisica : Option ℕ) (contenido : List ℕ) → Pedido
  al_kernel : Syscall → Pedido

-- The fields that the CPU reads of a body, each there or missing.
pub record Cuerpo : Type 0 where
  pub instruccion : Option (List ℕ)
  pub marco : Option ℕ
  pub contenido : Option (List ℕ)

-- A body that is not JSON is none.
pub data RespuestaHttp : Type 0 where
  sin_respuesta : RespuestaHttp
  respuesta : (status_code : ℕ) → Option Cuerpo → RespuestaHttp

pub record Red : Type 1 where
  pub Externo : Type 0
  pub post : Pedido → Externo → Externo × RespuestaHttp

-- Whether the status is 200.
unfoldable pub aceptada : RespuestaHttp → Bool
aceptada sin_respuesta = false
aceptada (respuesta status_code cuerpo) = status_code == 200

-- The body of an accepted request; none is one of the errors.
unfoldable pub cuerpo_de : RespuestaHttp → Option Cuerpo
cuerpo_de sin_respuesta = none
cuerpo_de (respuesta status_code cuerpo) = if status_code == 200 then cuerpo else none

-- A field that is missing has the zero value.
abbrev pub campo {ℓ} : {A : Type ℓ} → A → Option A → A
campo vacio none = vacio
campo vacio (some a) = a

module _ (red : Red) where
  unfoldable pub enviar_solicitud_instruccion : ℕ → ℕ → red.Externo → red.Externo × Option (List ℕ)
  unfolding cuerpo_de
  enviar_solicitud_instruccion pid pc m =
      let r = red.post (obtener_instruccion pid pc) m in
      (r.0, Option.map (λ c. campo [] c.instruccion) (cuerpo_de r.1))

  unfoldable pub pedir_marco_de_pagina : ℕ → List ℕ → red.Externo → red.Externo × Option ℕ
  unfolding cuerpo_de
  pedir_marco_de_pagina pid entradas m =
      let r = red.post (obtener_marco_proceso pid entradas) m in
      (r.0, Option.map (λ c. campo 0 c.marco) (cuerpo_de r.1))

  -- PedirContenidoPagina from the rounded address on.
  unfoldable pub pedir_pagina : Option ℕ → red.Externo → red.Externo × Option (List ℕ)
  unfolding cuerpo_de
  pedir_pagina direccion_fisica m =
      let r = red.post (leer_pagina direccion_fisica) m in
      (r.0, Option.map (λ c. campo [] c.contenido) (cuerpo_de r.1))

  unfoldable pub escribir_dato_memoria : Option ℕ → List ℕ → ℕ → red.Externo → red.Externo × Bool
  unfolding aceptada
  escribir_dato_memoria direccion_fisica dato pid m =
      let r = red.post (acceder_espacio_usuario_escritura pid direccion_fisica dato) m in
      (r.0, aceptada r.1)

  unfoldable pub leer_pagina_memoria :
      Option ℕ → ℕ → ℕ → red.Externo → red.Externo × Option (List ℕ)
  unfolding cuerpo_de
  leer_pagina_memoria direccion_fisica tamanio pid m =
      let r = red.post (acceder_espacio_usuario_lectura pid direccion_fisica tamanio) m in
      (r.0, Option.map (λ c. campo [] c.contenido) (cuerpo_de r.1))

  unfoldable pub actualizar_pagina_memoria :
      ℕ → Option ℕ → List ℕ → red.Externo → red.Externo × Bool
  unfolding aceptada
  actualizar_pagina_memoria pid direccion_fisica contenido m =
      let r = red.post (actualizar_pagina pid direccion_fisica contenido) m in (r.0, aceptada r.1)

  -- EnviarIOAKernel, EnviarINITAKernel, EnviarDUMPAKernel and EnviarEXITAKernel.
  unfoldable pub enviar_a_kernel : Syscall → red.Externo → red.Externo × Bool
  unfolding aceptada
  enviar_a_kernel llamada m = let r = red.post (al_kernel llamada) m in (r.0, aceptada r.1)

  -- What the instructions use of these requests.
  abbrev pub servicio_de : Servicio
  servicio_de = record {
    Externo = red.Externo;
    solicitar_instruccion = enviar_solicitud_instruccion;
    pedir_marco = pedir_marco_de_pagina;
    leer_pagina = pedir_pagina;
    escribir_dato = escribir_dato_memoria;
    leer_dato = leer_pagina_memoria;
    actualizar_pagina = actualizar_pagina_memoria;
    syscall = enviar_a_kernel;
  }
