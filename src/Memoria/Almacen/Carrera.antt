-- ===== src/Memoria/Almacen/Carrera.antt =====
-- Two requests of AlmacenarProceso that search for frames before either marks its own.
use conurban_os.Prelude.{
  ℕ, zero, suc, ◌+◌, ◌≡◌, ◌≢◌, refl, sym, ap, ◌∙◌, List, [], ◌∷◌, Bool, true, some, arith, some_inj,
  get_elem?, get_elem?_lt, set, lt→ltb, length, poner_ne, poner_self, suc==zero, ◌==◌, inl, inr,
  Bool-cases,
}
use Prim.Native.String.{String}
use conurban_os.Memoria.Estado.{Memoria, proceso_de}
use conurban_os.Memoria.Tabla.{crear_tabla, techo}
use conurban_os.Memoria.Tabla.Construccion.{crear_tabla_total}
use conurban_os.Memoria.Marcos.{asignar_frames_a_proceso, buscar_marcos_disponibles, contar_libres}
use conurban_os.Memoria.Marcos.Busqueda.{Libres, buscar_marcos_disponibles_lem}
use conurban_os.Memoria.Marcos.Asignacion.{asignar_frames_lem, pertenece}
use conurban_os.Memoria.Almacen.{buscar_frames, completar, asignar_y_crear, guardar}

set-marcado :
    (ocupados : List Bool) (f : ℕ)
    → get_elem? ocupados f ≡ some true
    → set ocupados f true ≡ ocupados
set-marcado [] f h = refl
set-marcado (x ∷ ocupados) zero h = rw (some_inj h) refl
set-marcado (x ∷ ocupados) (suc f) h = ap (λ r. x ∷ r) (set-marcado ocupados f h)

-- Frames that are marked already are marked again without a change.
asignar_marcados :
    (fs : List ℕ) (ocupados : List Bool)
    → ((f : ℕ) → pertenece f fs ≡ true → get_elem? ocupados f ≡ some true)
    → asignar_frames_a_proceso fs ocupados ≡ some ocupados
unfolding asignar_frames_a_proceso
asignar_marcados [] ocupados h = refl
asignar_marcados (g ∷ fs) ocupados h =
    let suyo = h g (ground arith) in
    let resto = asignar_marcados fs ocupados (λ f en. h f (ground arith)) in
    rw (set-marcado ocupados g suyo, lt→ltb _ _ (get_elem?_lt ocupados g true suyo), resto) refl

-- What the search gives is free, and there is one frame for each page.
halladas :
    (n : ℕ) (ocupados : List Bool) (frames : List ℕ)
    → buscar_marcos_disponibles (suc n) ocupados ≡ some frames
    → Libres 0 frames ocupados × (length frames ≡ suc n)
halladas n ocupados frames h =
    elim (buscar_marcos_disponibles_lem (suc n) (suc n) ocupados (omega arith)) [
      | inl (nada, _) ↦ absurd (ground arith)
      | inr (fs, hay, l, largo, _) ↦
          let mismos : fs ≡ frames = some_inj (sym hay ∙ h) in
          (rw (← mismos) l, rw (← mismos) largo)
    ]

buscar_frames-some :
    (tamanio n : ℕ) (frames : List ℕ) (m : Memoria)
    → techo tamanio m.config.page_size ≡ suc n
    → buscar_frames tamanio m ≡ some (some frames)
    → buscar_marcos_disponibles (suc n) m.marcos_ocupados ≡ some frames
unfolding buscar_frames
buscar_frames-some tamanio n frames m paginas h = elim (Bool-cases (m.config.page_size == 0)) [
  | inl cero ↦ let x = rw cero at h in absurd (ground arith)
  | inr no_cero ↦ some_inj (rw (no_cero, paginas) at h)
]

-- With at least one level and one entry per page: two requests for different processes that need the
-- same number of pages, one or more, and that both search before either marks, find the same frames.
-- Each then returns without an error, the two processes have the same page table, which is that of
-- these frames, and only the frames of one process are gone from the free ones.
pub completar-completar :
    (pid pid' tamanio tamanio' n k e : ℕ) (instrucciones instrucciones' : List String)
    (frames frames' : List ℕ) (m : Memoria)
    → pid ≢ pid'
    → m.config.number_of_levels ≡ suc k
    → m.config.entries_per_page ≡ suc e
    → techo tamanio m.config.page_size ≡ suc n
    → techo tamanio' m.config.page_size ≡ suc n
    → buscar_frames tamanio m ≡ some (some frames)
    → buscar_frames tamanio' m ≡ some (some frames')
    → (m1 : Memoria) × (m2 : Memoria) × (completar pid (suc n) instrucciones frames m ≡ some m1)
      × (completar pid' (suc n) instrucciones' frames' m1 ≡ some m2)
      × (frames' ≡ frames)
      × ((proceso_de m2 pid').tabla_de_paginas ≡ (proceso_de m2 pid).tabla_de_paginas)
      × (crear_tabla m.config.number_of_levels m.config.entries_per_page frames
          ≡ some (proceso_de m2 pid).tabla_de_paginas)
      × (contar_libres m2.marcos_ocupados + suc n ≡ contar_libres m.marcos_ocupados)
unfolding completar
completar-completar pid pid' tamanio tamanio' n k e instrucciones instrucciones' frames frames' m d
      niveles entradas paginas paginas' busca busca' =
    let hay = buscar_frames-some tamanio n frames m paginas busca in
    let hay' = buscar_frames-some tamanio' n frames' m paginas' busca' in
    let mismos : frames' ≡ frames = some_inj (sym hay' ∙ hay) in
    let (l, largo) = halladas n m.marcos_ocupados frames hay in
    let (ocupados, ok, _, cuenta, marcas) = asignar_frames_lem 0 frames m.marcos_ocupados l in
    let otra_vez : asignar_frames_a_proceso frames ocupados ≡ some ocupados =
      asignar_marcados frames ocupados (λ f en. marcas f ∙ rw en refl) in
    let (t, tabla_ok) = crear_tabla_total k e frames in
    let tabla_ok' : crear_tabla m.config.number_of_levels m.config.entries_per_page frames
        ≡ some t =
      rw (niveles, entradas) tabla_ok in
    let m1 = guardar pid instrucciones frames ocupados t m in
    let suyo = poner_self m.procesos pid in
    let suyo' = poner_self m1.procesos pid' in
    let ajeno = poner_ne m1.procesos pid' in
    (
      m1,
      guardar pid' instrucciones' frames ocupados t m1,
      rw (asignar_y_crear, suc==zero, ok, tabla_ok') refl,
      rw (mismos, asignar_y_crear, suc==zero, otra_vez, tabla_ok') refl,
      mismos,
      rw (suyo' _, ajeno _ pid (λ q. d (sym q)), suyo _) refl,
      rw (ajeno _ pid (λ q. d (sym q)), suyo _) tabla_ok',
      omega (arith, cuenta, largo),
    )
