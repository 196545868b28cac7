-- ===== src/Memoria/Liberar/Efecto.antt =====
-- What freeing the frames of a table does.
use conurban_os.Prelude.{
  ℕ, ◌+◌, ◌*◌, ◌/◌, ◌≤◌, ◌<◌, ◌≡◌, refl, ◌⊎◌, inl, inr, ◌≢◌, List, [], ◌∷◌, ◌++◌, Bool, true, false,
  Option, none, some, arith, get_elem?, get_elem?_lt, set, length, replicate, length-set,
  length-replicate, get_elem?-set_self, get_elem?-set_ne, ◌||◌, take, drop, ◌∙◌, sym, dec_lt,
  le→leb,
}
use conurban_os.Memoria.Estado.{
  Memoria, TablaPaginas, tabla, Entradas, fin, entrada, EntradaTp, pagina, siguiente_nivel, Pagina,
  Metrica, incrementar_metrica, proceso_de,
}
use conurban_os.Memoria.Bytes.{escribir_bytes}
use conurban_os.Memoria.Bytes.Escritura.{escribir_bytes-Escrito, escribir_bytes_total}
use conurban_os.Memoria.Marcos.Asignacion.{pertenece}
use conurban_os.Memoria.Liberar.{
  liberar_marco, liberar_tabla, liberar_entradas, liberar_entrada, recorrer_tabla_y_liberar_marcos,
  eliminar_marcos_fisicos,
}

-- The frames of a table, in the order of its pages.
unfoldable mutual
  pub frames_de : TablaPaginas → List ℕ
  frames_de (tabla es) = frames_de_entradas es

  pub frames_de_entradas : Entradas → List ℕ
  frames_de_entradas fin = []
  frames_de_entradas (entrada e es) = frames_de_entrada e ++ frames_de_entradas es

  pub frames_de_entrada : EntradaTp → List ℕ
  frames_de_entrada (pagina p f) = f ∷ []
  frames_de_entrada (siguiente_nivel t) = frames_de t

-- The frames are free; other marks, the bytes of other frames and the processes stay.
pub record Liberado (frames : List ℕ) (m m' : Memoria) : Type 0 where
  pub config : m'.config ≡ m.config
  pub procesos : m'.procesos ≡ m.procesos
  pub cant_marcos : length m'.marcos_ocupados ≡ length m.marcos_ocupados
  pub cant_bytes : length m'.bytes ≡ length m.bytes
  pub libres : (f : ℕ) → pertenece f frames ≡ true → get_elem? m'.marcos_ocupados f ≢ some true
  pub otros :
      (f : ℕ)
      → pertenece f frames ≡ false
      → get_elem? m'.marcos_ocupados f ≡ get_elem? m.marcos_ocupados f
  pub bytes :
      (j : ℕ)
      → pertenece (j / m.config.page_size) frames ≡ false
      → get_elem? m'.bytes j ≡ get_elem? m.bytes j

pertenece-append :
    (f : ℕ) (fs gs : List ℕ) → pertenece f (fs ++ gs) ≡ (pertenece f fs || pertenece f gs)
pertenece-append f [] gs = refl
pertenece-append f (g ∷ fs) gs = ground (arith, pertenece-append f fs gs)

Liberado-nil : (m : Memoria) → Liberado [] m m
Liberado-nil m = record {
  config = refl;
  procesos = refl;
  cant_marcos = refl;
  cant_bytes = refl;
  libres = λ f h. cc;
  otros = λ f _. refl;
  bytes = λ j _. refl;
}

Liberado-append :
    {fs gs : List ℕ} {m1 m2 m3 : Memoria}
    → Liberado fs m1 m2
    → Liberado gs m2 m3
    → Liberado (fs ++ gs) m1 m3
Liberado-append {fs} {gs} {m1} {m2} {m3} a b = record {
  config = b.config ∙ a.config;
  procesos = b.procesos ∙ a.procesos;
  cant_marcos = b.cant_marcos ∙ a.cant_marcos;
  cant_bytes = b.cant_bytes ∙ a.cant_bytes;
  libres = λ f h. ground (arith, pertenece-append f fs gs, a.libres f, b.libres f, b.otros f);
  otros = λ f h. ground (arith, pertenece-append f fs gs, a.otros f, b.otros f);
  bytes = λ j h.
      ground
        (arith, pertenece-append (j / m1.config.page_size) fs gs, a.bytes j, b.bytes j, a.config);
}

abbrev pub Cabe : Memoria → Type 0
Cabe m = length m.marcos_ocupados * m.config.page_size ≤ length m.bytes

Liberado-Cabe : {fs : List ℕ} {m m' : Memoria} → Liberado fs m m' → Cabe m → Cabe m'
Liberado-Cabe {fs} {m} {m'} l c = rw (l.cant_marcos, l.config, l.cant_bytes) c

abbrev Libera : List ℕ → Memoria → Option (Memoria × List Pagina) → Type 0
Libera fs m r =
    (m' : Memoria) × (paginas : List Pagina) × (r ≡ some (m', paginas)) × Liberado fs m m'

otro_marco : (j f w : ℕ) → j / w ≢ f → (j < f * w) ⊎ (f * w + w ≤ j)
otro_marco j f w h = elim (dec_lt j (f * w)) [
  | yes p ↦ inl p
  | no p ↦ elim (dec_lt j (f * w + w)) [
    | yes q ↦ absurd (h (grind arith))
    | no q ↦ inr (omega arith)
  ]
]

fila_cabe : (f n w b : ℕ) → f < n → n * w ≤ b → f * w + w ≤ b
fila_cabe f n w b h le = grind arith

pertenece_uno : (f g : ℕ) → pertenece g (f ∷ []) ≡ false → f ≢ g
pertenece_uno f g h = ground arith

pertenece_mismo : (f g : ℕ) → pertenece g (f ∷ []) ≡ true → f ≡ g
pertenece_mismo f g h = ground arith

no_marcado :
    (f : ℕ) (m : Memoria) → get_elem? m.marcos_ocupados f ≢ some true → Liberado (f ∷ []) m m
no_marcado f m h = record {
  config = refl;
  procesos = refl;
  cant_marcos = refl;
  cant_bytes = refl;
  libres = λ g e. let same = pertenece_mismo f g e in rw (← same) h;
  otros = λ g _. refl;
  bytes = λ j _. refl;
}

marcado :
    (f : ℕ) (m : Memoria) (bytes' : List ℕ)
    → f < length m.marcos_ocupados
    → escribir_bytes (f * m.config.page_size) (replicate m.config.page_size 0) m.bytes ≡ some bytes'
    → Liberado
        (f ∷ [])
        m
        (record m { bytes = bytes'; marcos_ocupados = set m.marcos_ocupados f false })
marcado f m bytes' en_rango escrito =
    let w =
      escribir_bytes-Escrito (f * m.config.page_size) (replicate m.config.page_size 0) m.bytes
        escrito in
    record {
      config = refl;
      procesos = refl;
      cant_marcos = length-set m.marcos_ocupados f false;
      cant_bytes = w.misma_longitud;
      libres = λ g e.
          let same = pertenece_mismo f g e in
          let self = get_elem?-set_self m.marcos_ocupados f false en_rango in
          rw (← same, self) (λ c. cc);
      otros = λ g e. get_elem?-set_ne m.marcos_ocupados f g false (pertenece_uno f g e);
      bytes = λ j e. w.fuera j (
          rw length-replicate (
            otro_marco j f m.config.page_size
              (λ same. pertenece_uno f (j / m.config.page_size) e (sym same))));
    }

Bool-option : (o : Option Bool) → (o ≡ some true) ⊎ (o ≢ some true)
Bool-option none = inr (λ c. cc)
Bool-option (some true) = inl refl
Bool-option (some false) = inr (λ c. cc)

sin_marcar :
    (p f : ℕ) (m : Memoria) (ps : List Pagina)
    → get_elem? m.marcos_ocupados f ≢ some true
    → liberar_marco p f (m, ps) ≡ some (m, ps)
unfolding liberar_marco
sin_marcar p f m ps h = ground arith

liberar_marco_lem :
    (p f : ℕ) (m : Memoria) (ps : List Pagina)
    → Cabe m
    → Libera (f ∷ []) m (liberar_marco p f (m, ps))
unfolding liberar_marco
liberar_marco_lem p f m ps c = elim (Bool-option (get_elem? m.marcos_ocupados f)) [
  | inr no_esta ↦ (m, ps, sin_marcar p f m ps no_esta, no_marcado f m no_esta)
  | inl esta ↦
      let en_rango = get_elem?_lt m.marcos_ocupados f true esta in
      let cabe = fila_cabe f _ m.config.page_size _ en_rango c in
      let (bytes', escrito) =
        escribir_bytes_total (f * m.config.page_size) (replicate m.config.page_size 0) m.bytes
          (rw length-replicate cabe) in
      (
        record m { bytes = bytes'; marcos_ocupados = set m.marcos_ocupados f false },
        ps
            ++ (record {
              numero_de_pagina = p;
              contenido = take m.config.page_size (drop (f * m.config.page_size) m.bytes);
            })
              ∷ [],
        rw (esta, liberar_marco, le→leb _ _ cabe, escrito) refl,
        marcado f m bytes' en_rango escrito,
      )
]

-- The count of accesses touches none of what the walk reads.
contado-Cabe :
    (pid : ℕ) (m : Memoria) → Cabe m → Cabe (incrementar_metrica Metrica.accesos_tablas pid 1 m)
unfolding incrementar_metrica
contado-Cabe pid m c = c

contado-Liberado :
    (pid : ℕ) {fs : List ℕ} {m m' : Memoria}
    → Liberado fs (incrementar_metrica Metrica.accesos_tablas pid 1 m) m'
    → Liberado fs m m'
unfolding incrementar_metrica
contado-Liberado pid l = record {
  config = l.config;
  procesos = l.procesos;
  cant_marcos = l.cant_marcos;
  cant_bytes = l.cant_bytes;
  libres = l.libres;
  otros = l.otros;
  bytes = l.bytes;
}

mutual
  unfolding liberar_tabla frames_de

  liberar_tabla_lem :
      (pid : ℕ) (t : TablaPaginas) (m : Memoria) (ps : List Pagina)
      → Cabe m
      → Libera (frames_de t) m (liberar_tabla pid t (m, ps))
  liberar_tabla_lem pid (tabla es) m ps c =
      let (m', ps', ok, l) =
        liberar_entradas_lem pid es (incrementar_metrica Metrica.accesos_tablas pid 1 m) ps
          (contado-Cabe pid m c) in
      (m', ps', ok, contado-Liberado pid l)

  liberar_entradas_lem :
      (pid : ℕ) (es : Entradas) (m : Memoria) (ps : List Pagina)
      → Cabe m
      → Libera (frames_de_entradas es) m (liberar_entradas pid es (m, ps))
  liberar_entradas_lem pid fin m ps c = (m, ps, refl, Liberado-nil m)
  liberar_entradas_lem pid (entrada e es) m ps c =
      let (m', ps', ok, l) = liberar_entrada_lem pid e m ps c in
      let (m'', ps'', ok', l') = liberar_entradas_lem pid es m' ps' (Liberado-Cabe l c) in
      (m'', ps'', rw ok ok', Liberado-append l l')

  liberar_entrada_lem :
      (pid : ℕ) (e : EntradaTp) (m : Memoria) (ps : List Pagina)
      → Cabe m
      → Libera (frames_de_entrada e) m (liberar_entrada pid e (m, ps))
  liberar_entrada_lem pid (pagina p f) m ps c = liberar_marco_lem p f m ps c
  liberar_entrada_lem pid (siguiente_nivel t) m ps c = liberar_tabla_lem pid t m ps c

-- Where the memory has a page for each frame and the process is known, freeing its frames does
-- not panic: each frame of its table ends free, while the marks and the bytes of the other frames
-- and every process stay.
pub eliminar_marcos-Liberado :
    (pid : ℕ) (m : Memoria)
    → Cabe m
    → m.procesos_mutex pid ≡ true
    → (m' : Memoria) × (paginas : List Pagina) × (eliminar_marcos_fisicos pid m
        ≡ some (m', paginas))
      × Liberado (frames_de (proceso_de m pid).tabla_de_paginas) m m'
unfolding eliminar_marcos_fisicos recorrer_tabla_y_liberar_marcos
eliminar_marcos-Liberado pid m c conocido =
    let (m', ps, ok, l) = liberar_tabla_lem pid (proceso_de m pid).tabla_de_paginas m [] c in
    (m', ps, rw (conocido, eliminar_marcos_fisicos) ok, l)
