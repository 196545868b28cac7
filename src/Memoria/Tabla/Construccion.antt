-- ===== src/Memoria/Tabla/Construccion.antt =====
-- What construirNivel builds: it ends without a panic, it uses up the frames, and the last two
-- levels hold them in order.
use conurban_os.Prelude.{
  ℕ, zero, suc, ◌+◌, ◌-◌, ◌*◌, ◌≤◌, ◌<◌, ◌≡◌, refl, List, Option, some, arith, ltb, if◌then◌else◌,
  get_elem?, length, get_elem?_in, get_elem?_lt, ap,
}
use conurban_os.Memoria.Estado.{
  TablaPaginas, tabla, Entradas, fin, entrada, pagina, siguiente_nivel,
}
use conurban_os.Memoria.Tabla.{
  bucle_hojas, bucle_subtablas, techo, construir_nivel, entrada_en, crear_tabla,
}

module _ (frames : List ℕ) where
  -- The last level takes as many frames as it has rounds.
  pub hojas_avance :
      (cant i : ℕ) → i + cant ≤ length frames → (bucle_hojas cant i frames).1 ≡ i + cant
  unfolding bucle_hojas
  hojas_avance zero i h = omega arith
  hojas_avance (suc cant) i h =
      let (f, e) = get_elem?_in frames i (omega arith) in
      rw (e, bucle_hojas) (omega (arith, hojas_avance cant (suc i) (omega arith)))

  -- Its entry d is the page i + d, in the frame of that position.
  pub hojas_entrada :
      (cant i d p f : ℕ)
      → i + cant ≤ length frames
      → d < cant
      → i + d ≡ p
      → get_elem? frames p ≡ some f
      → entrada_en (bucle_hojas cant i frames).0 d ≡ some (pagina p f)
  unfolding bucle_hojas
  hojas_entrada zero i d p f h lt e found = absurd (omega arith)
  hojas_entrada (suc cant) i zero p f h lt e found =
      let e' : i ≡ p = omega arith in
      let here : get_elem? frames i ≡ some f = rw e' found in
      rw (here, bucle_hojas) (ap (λ q. some (pagina q f)) e')
  hojas_entrada (suc cant) i (suc d) p f h lt e found =
      let (g, here) = get_elem?_in frames i (omega arith) in
      rw (here, bucle_hojas)
        (hojas_entrada cant (suc i) d p f (omega arith) (omega arith) (omega arith) found)

module _ (e : ℕ) (frames : List ℕ) where
  -- The pages that the last level takes from position i on.
  abbrev pub cant_hojas : ℕ → ℕ
  cant_hojas i =
      let restantes = length frames - i in if ltb (suc e) restantes then suc e else restantes

  pub hojas-le : (i : ℕ) → i ≤ length frames → i + cant_hojas i ≤ length frames
  hojas-le i h = ground arith

  pub nivel_uno :
      (i : ℕ)
      → i ≤ length frames
      → construir_nivel 1 (suc e) frames i
        ≡ some (tabla (bucle_hojas (cant_hojas i) i frames).0, i + cant_hojas i)
  unfolding construir_nivel
  nivel_uno i h =
      ap (λ k. some (tabla (bucle_hojas (cant_hojas i) i frames).0, k))
        (hojas_avance frames (cant_hojas i) i (hojas-le i h))

  abbrev pub Construye : (ℕ → Option (TablaPaginas × ℕ)) → ℕ → Type 0
  Construye f i = (t : TablaPaginas) × (k : ℕ) × (f i ≡ some (t, k)) × (i ≤ k) × (k ≤ length frames)

  pub bucle_total :
      (f : ℕ → Option (TablaPaginas × ℕ))
      → ((i : ℕ) → i ≤ length frames → Construye f i)
      → (cant i : ℕ) → i ≤ length frames
      → (es : Entradas) × (k : ℕ) × (bucle_subtablas f cant i ≡ some (es, k))
        × (i ≤ k)
        × (k ≤ length frames)
  unfolding bucle_subtablas
  bucle_total f total zero i h = (fin, i, refl, omega arith, h)
  bucle_total f total (suc cant) i h =
      let (t, k, ok, le, top) = total i h in
      let (es, k', ok', le', top') = bucle_total f total cant k top in
      (entrada (siguiente_nivel t) es, k', rw (ok, bucle_subtablas, ok'), omega arith, top')

  pub construir_total :
      (nivel i : ℕ) → i ≤ length frames → Construye (construir_nivel (suc nivel) (suc e) frames) i
  unfolding construir_nivel
  construir_total zero i h = (_, _, nivel_uno i h, omega arith, hojas-le i h)
  construir_total (suc nivel) i h =
      let (es, k, ok, le, top) =
        bucle_total (construir_nivel (suc nivel) (suc e) frames) (construir_total nivel)
          (techo (length frames - i) (suc e)) i h in
      (tabla es, k, rw ok, le, top)

  -- Of the loop over the tables of the last level: where page p is in table j, at entry d.
  pub bucle_entrada :
      (cant i j d p f : ℕ)
      → i ≤ length frames
      → j < cant
      → d < suc e
      → i + j * suc e + d ≡ p
      → get_elem? frames p ≡ some f
      → (es : Entradas) × (k : ℕ) × (hojas : Entradas) × (bucle_subtablas
            (construir_nivel 1 (suc e) frames)
            cant
            i
          ≡ some (es, k))
        × (entrada_en es j ≡ some (siguiente_nivel (tabla hojas)))
        × (entrada_en hojas d ≡ some (pagina p f))
  unfolding bucle_subtablas
  bucle_entrada zero i j d p f h lt dlt eq found = absurd (omega arith)
  bucle_entrada (suc cant) i zero d p f h lt dlt eq found =
      let in_range : p < length frames = get_elem?_lt frames p f found in
      let d_in : d < cant_hojas i = ground arith in
      let (es, k, ok, le, top) =
        bucle_total (construir_nivel 1 (suc e) frames) (construir_total zero) cant
          (i + cant_hojas i) (hojas-le i h) in
      (
        entrada (siguiente_nivel (tabla (bucle_hojas (cant_hojas i) i frames).0)) es,
        k,
        (bucle_hojas (cant_hojas i) i frames).0,
        rw (nivel_uno i h, bucle_subtablas, ok),
        refl,
        hojas_entrada frames (cant_hojas i) i d p f (hojas-le i h) d_in (omega arith) found,
      )
  bucle_entrada (suc cant) i (suc j) d p f h lt dlt eq found =
      let in_range : p < length frames = get_elem?_lt frames p f found in
      let full : cant_hojas i ≡ suc e = grind arith in
      let (es, k, hojas, ok, at_j, at_d) =
        bucle_entrada cant (i + cant_hojas i) j d p f (hojas-le i h) (omega arith) dlt (grind arith)
          found in
      (
        entrada (siguiente_nivel (tabla (bucle_hojas (cant_hojas i) i frames).0)) es,
        k,
        hojas,
        rw (nivel_uno i h, bucle_subtablas, ok),
        at_j,
        at_d,
      )

  -- An intermediate level is its loop.
  pub construir_intermedio :
      (nivel i c rondas : ℕ) {es : Entradas} {k : ℕ}
      → length frames - i ≡ c
      → techo c (suc e) ≡ rondas
      → bucle_subtablas (construir_nivel (suc nivel) (suc e) frames) rondas i ≡ some (es, k)
      → construir_nivel (suc (suc nivel)) (suc e) frames i ≡ some (tabla es, k)
  unfolding construir_nivel
  construir_intermedio nivel i c rondas eq eq' ok = rw (eq, eq', ok) refl

  -- The frames used up are at most those given.
  pub construir_tope :
      (nivel i : ℕ) {t : TablaPaginas} {k : ℕ}
      → i ≤ length frames
      → construir_nivel (suc nivel) (suc e) frames i ≡ some (t, k)
      → k ≤ length frames
  construir_tope nivel i h eq = let (t', k', ok, _, top) = construir_total nivel i h in ground arith

-- With at least one level and one entry per page a table is made, however many frames there are.
pub crear_tabla_total :
    (niveles e : ℕ) (frames : List ℕ)
    → (t : TablaPaginas) × (crear_tabla (suc niveles) (suc e) frames ≡ some t)
unfolding crear_tabla
crear_tabla_total niveles e frames =
    let (t, k, ok, _, _) = construir_total e frames niveles 0 (omega arith) in (t, rw ok refl)
