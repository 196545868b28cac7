-- ===== src/Memoria/Tabla/Recorrido.antt =====
-- The CPU's indices against the table of the memory: ExtraerEntradasYDesplazamiento, crearTabla
-- and obtenerMarcoDesdeTabla together.
use conurban_os.Prelude.{
  ℕ, zero, suc, ◌-◌, ◌*◌, ◌/◌, ◌%◌, ◌<◌, ◌≡◌, refl, List, ◌∷◌, Option, some, arith, get_elem?,
  length, get_elem?_lt, ap, ◌∙◌, sym,
}
use conurban_os.Memoria.Estado.{TablaPaginas, tabla, Entradas, entrada, pagina, siguiente_nivel}
use conurban_os.Memoria.Tabla.{
  bucle_subtablas, techo, construir_nivel, crear_tabla, entrada_en, bajar, ultimo, marco,
  marco_final, marco_en,
}
use conurban_os.Memoria.Tabla.Construccion.{
  construir_total, bucle_total, bucle_entrada, construir_intermedio, construir_tope,
}
use conurban_os.Cpu.Mmu.{potencia, entradas_de}

pub techo-lt : (n e p : ℕ) → p < n → p / suc e < techo n (suc e)
techo-lt n e p h = grind arith

div-lt : (p e : ℕ) → p < suc e * suc e → p / suc e < suc e
div-lt p e h = grind arith

potencia-lt : (k p e : ℕ) → p < suc e * suc e → p < potencia (suc e) (suc (suc k))
unfolding potencia
potencia-lt zero p e h = omega arith
potencia-lt (suc k) p e h = grind (arith, potencia-lt k p e h)

-- Above the last two levels every index of such a page is 0.
digito_alto : (k p e : ℕ) → p < suc e * suc e → (p / potencia (suc e) (suc (suc k))) % suc e ≡ 0
digito_alto k p e h =
    let z : p / potencia (suc e) (suc (suc k)) ≡ 0 = grind (arith, potencia-lt k p e h) in
    rw z (omega arith)

-- The first of at least one round of an intermediate level is the first table.
pub primera_subtabla :
    (f : ℕ → Option (TablaPaginas × ℕ)) (cant i k k' : ℕ) (t : TablaPaginas) (es : Entradas)
    → f i ≡ some (t, k)
    → bucle_subtablas f cant k ≡ some (es, k')
    → bucle_subtablas f (suc cant) i ≡ some (entrada (siguiente_nivel t) es, k')
unfolding bucle_subtablas
primera_subtabla f cant i k k' t es first rest = rw (first, bucle_subtablas, rest) refl

digito_bajo : (p e : ℕ) → p < suc e * suc e → p / potencia (suc e) 1 % suc e ≡ p / suc e
unfolding potencia
digito_bajo p e h = grind (arith, div-lt p e h)

div-one : (p : ℕ) → p / 1 ≡ p
div-one p = omega arith

-- One step of the descent.
pub paso :
    (n i : ℕ) (indices : List ℕ) (es : Entradas) (t : TablaPaginas)
    → entrada_en es i ≡ some (siguiente_nivel t)
    → bajar (suc n) (i ∷ indices) (tabla es) ≡ bajar n indices t
unfolding bajar
paso n i indices es t h = rw h refl

refl_bajar : (indices : List ℕ) (t : TablaPaginas) → bajar 0 indices t ≡ some t
unfolding bajar
refl_bajar indices t = refl

module _ (e : ℕ) (frames : List ℕ) (p f : ℕ) where
  -- The table of a level leads the indices of page p to its frame.
  abbrev Llega : ℕ → Type 0
  Llega k =
      (t : TablaPaginas) × (fi : ℕ) × (hojas : Entradas) × (construir_nivel (suc (suc k)) (suc e)
          frames 0
        ≡ some (t, fi))
      × (bajar (suc k) (entradas_de p (suc e) (suc (suc k))) t ≡ some (tabla hojas))
      × (entrada_en hojas (p % suc e) ≡ some (pagina p f))
      × (ultimo (entradas_de p (suc e) (suc (suc k))) ≡ some (p % suc e))

  llega : (k : ℕ) → p < suc e * suc e → get_elem? frames p ≡ some f → Llega k
  unfolding entradas_de potencia
  llega zero h found =
      let in_range : p < length frames = get_elem?_lt frames p f found in
      let (es, fi, hojas, ok, at_j, at_d) =
        bucle_entrada e frames (techo (length frames) (suc e)) 0 (p / suc e) (p % suc e) p f
          (omega arith) (techo-lt (length frames) e p in_range) (omega arith) (omega arith) found in
      (
        tabla es,
        fi,
        hojas,
        construir_intermedio e frames 0 0 (length frames) _ (omega arith) refl ok,
        paso 0 _ _ es (tabla hojas) (rw (digito_bajo p e h) at_j) ∙ refl_bajar _ (tabla hojas),
        at_d,
        ap some (ap (λ q. q % suc e) (div-one p)),
      )
  llega (suc k) h found =
      let in_range : p < length frames = get_elem?_lt frames p f found in
      let (t, fi, hojas, ok, baja, at_d, ult) = llega k h found in
      let c = techo (length frames) (suc e) - 1 in
      let more : suc c ≡ techo (length frames) (suc e) =
        omega (arith, techo-lt (length frames) e p in_range) in
      let (es, fi', ok', _, _) =
        bucle_total e frames (construir_nivel (suc (suc k)) (suc e) frames)
          (construir_total e frames (suc k)) c fi
          (construir_tope e frames (suc k) 0 (omega arith) ok) in
      (
        tabla (entrada (siguiente_nivel t) es),
        fi',
        hojas,
        construir_intermedio e frames (suc k) 0 (length frames) (suc c) (omega arith) (sym more)
            (primera_subtabla _ c 0 fi fi' t es ok ok'),
        paso (suc k) _ _ (entrada (siguiente_nivel t) es) t (rw (digito_alto k p e h) refl) ∙ baja,
        at_d,
        ult,
      )

  -- Every page among the first E * E, for E entries per page, is found by its own indices: of a
  -- process with these frames and at least two levels the lookup gives the frame of that position.
  pub marco_en-crear_tabla :
      (k : ℕ)
      → p < suc e * suc e
      → get_elem? frames p ≡ some f
      → (t : TablaPaginas) × (crear_tabla (suc (suc k)) (suc e) frames ≡ some t)
        × (marco_en (suc (suc k)) t (entradas_de p (suc e) (suc (suc k))) ≡ some (marco f))
  unfolding crear_tabla marco_en marco_final
  marco_en-crear_tabla k h found =
      let (t, fi, hojas, ok, baja, at_d, ult) = llega k h found in
      let menos : suc (suc k) - 1 ≡ suc k = omega arith in
      (t, rw ok refl, rw (menos, baja, ult, marco_final, at_d) refl)
