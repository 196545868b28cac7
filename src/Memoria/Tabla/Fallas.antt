-- ===== src/Memoria/Tabla/Fallas.antt =====
-- With three levels or more construirNivel hangs every frame under its first tables, so the pages
-- from E * E on, for E entries per page, cannot be reached by their indices.
use conurban_os.Prelude.{
  ℕ, zero, suc, ◌+◌, ◌-◌, ◌*◌, ◌/◌, ◌%◌, ◌≤◌, ◌<◌, ◌≡◌, ◌⊎◌, inl, inr, refl, List, ◌∷◌, Option,
  none, some, arith, length, ap, ◌∙◌, dec_lt,
}
use native.Mathlib.Nat.{mod-eq_of_lt, div-eq_of_lt}
use conurban_os.Memoria.Estado.{TablaPaginas, tabla, Entradas, fin, entrada, siguiente_nivel}
use conurban_os.Memoria.Tabla.{
  bucle_hojas, bucle_subtablas, techo, construir_nivel, crear_tabla, entrada_en, bajar, marco_en,
}
use conurban_os.Memoria.Tabla.Construccion.{cant_hojas, nivel_uno, hojas-le, construir_intermedio}
use conurban_os.Memoria.Tabla.Recorrido.{primera_subtabla, paso, techo-lt}
use conurban_os.Cpu.Mmu.{potencia, entradas_de}

-- Entries whose tables are empty.
copias : ℕ → Entradas
copias zero = fin
copias (suc n) = entrada (siguiente_nivel (tabla fin)) (copias n)

en_copias :
    (n d : ℕ)
    → (entrada_en (copias n) d ≡ none)
      ⊎ (entrada_en (copias n) d ≡ some (siguiente_nivel (tabla fin)))
unfolding copias
en_copias zero d = inl refl
en_copias (suc n) zero = inr refl
en_copias (suc n) (suc d) = en_copias n d

-- The tables made when no frame is left are empty.
bucle-copias :
    (f : ℕ → Option (TablaPaginas × ℕ)) (cant n : ℕ)
    → f n ≡ some (tabla fin, n)
    → bucle_subtablas f cant n ≡ some (copias cant, n)
unfolding bucle_subtablas copias
bucle-copias f zero n empty = refl
bucle-copias f (suc cant) n empty = rw (empty, bucle_subtablas, bucle-copias f cant n empty) refl

-- No index leads through an empty table.
bajar-copias :
    (n i j d : ℕ) (indices : List ℕ) (t : TablaPaginas)
    → bajar (suc (suc n)) (suc d ∷ j ∷ indices) (tabla (entrada (siguiente_nivel t) (copias i)))
      ≡ none
unfolding bajar
bajar-copias n i j d indices t = elim (en_copias i d) [ inl e ↦ rw e refl | inr e ↦ rw e refl ]

digito_pos : (w p e : ℕ) → 0 < w → w ≤ p → p < w * suc e → p / w % suc e ≡ suc (p / w - 1)
digito_pos w p e pos le lt =
    let small : p / w < suc e = grind arith in
    let big : 0 < p / w = grind arith in mod-eq_of_lt small ∙ omega arith

digito_cero : (w p e : ℕ) → p < w → p / w % suc e ≡ 0
digito_cero w p e lt = rw (div-eq_of_lt lt) (omega arith)

potencia-pos : (k e : ℕ) → 0 < potencia (suc e) k
unfolding potencia
potencia-pos zero e = omega arith
potencia-pos (suc k) e = grind (arith, potencia-pos k e)

techo-zero : (e c : ℕ) → c ≡ 0 → techo c (suc e) ≡ 0
techo-zero e c h = rw h (grind arith)

module _ (e : ℕ) (frames : List ℕ) where
  -- The loop over the tables of the last level goes on to the last frame.
  bucle_agota :
      (cant i : ℕ)
      → i ≤ length frames
      → length frames ≤ i + cant * suc e
      → (es : Entradas) × (bucle_subtablas (construir_nivel 1 (suc e) frames) cant i
          ≡ some (es, length frames))
  unfolding bucle_subtablas
  bucle_agota zero i h le =
      let end : i ≡ length frames = omega arith in (fin, ap (λ k. some (fin, k)) end)
  bucle_agota (suc cant) i h le =
      let (es, ok) =
        bucle_agota cant (i + cant_hojas e frames i) (hojas-le e frames i h) (ground arith) in
      (
        entrada (siguiente_nivel (tabla (bucle_hojas (cant_hojas e frames i) i frames).0)) es,
        rw (nivel_uno e frames i h, bucle_subtablas, ok) refl,
      )

  agotado :
      (nivel : ℕ)
      → construir_nivel (suc nivel) (suc e) frames (length frames) ≡ some (tabla fin, length frames)
  unfolding bucle_subtablas bucle_hojas
  agotado zero =
      let z : cant_hojas e frames (length frames) ≡ 0 = ground arith in
      nivel_uno e frames (length frames) (omega arith)
      ∙ rw (z, bucle_hojas) (ap (λ k. some (tabla fin, k)) (omega arith))
  agotado (suc nivel) =
      construir_intermedio e frames nivel (length frames) 0 0 (omega arith) (techo-zero e 0 refl)
        refl

  -- A table above the second level: its first entry has all the frames, the others none.
  corona :
      (nivel : ℕ) (t : TablaPaginas)
      → 0 < length frames
      → construir_nivel (suc nivel) (suc e) frames 0 ≡ some (t, length frames)
      → (c : ℕ) × (construir_nivel (suc (suc nivel)) (suc e) frames 0
          ≡ some (tabla (entrada (siguiente_nivel t) (copias c)), length frames))
  corona nivel t pos ok =
      let c = techo (length frames) (suc e) - 1 in
      let more : techo (length frames) (suc e) ≡ suc c =
        omega (arith, techo-lt (length frames) e 0 pos) in
      (
        c,
        construir_intermedio e frames nivel 0 (length frames) (suc c) (omega arith) more (
            primera_subtabla _ c 0 (length frames) (length frames) t (copias c) ok
              (bucle-copias _ c (length frames) (agotado nivel))),
      )

  -- Two levels or more use up the frames.
  agota :
      (k : ℕ)
      → 0 < length frames
      → (t : TablaPaginas) × (construir_nivel (suc (suc k)) (suc e) frames 0
          ≡ some (t, length frames))
  agota zero pos =
      let (es, ok) = bucle_agota (techo (length frames) (suc e)) 0 (omega arith) (grind arith) in
      (tabla es, construir_intermedio e frames 0 0 (length frames) _ (omega arith) refl ok)
  agota (suc k) pos =
      let (t, ok) = agota k pos in let (c, ok') = corona (suc k) t pos ok in (_, ok')

  cae :
      (k p : ℕ)
      → suc e * suc e ≤ p
      → p < potencia (suc e) (suc (suc (suc k)))
      → 0 < length frames
      → (t : TablaPaginas) × (construir_nivel (suc (suc (suc k))) (suc e) frames 0
          ≡ some (t, length frames))
        × (bajar (suc (suc k)) (entradas_de p (suc e) (suc (suc (suc k)))) t ≡ none)
  unfolding entradas_de
  cae zero p high low pos =
      let (t, ok) = agota 0 pos in
      let (c, ok') = corona 1 t pos ok in
      (
        tabla (entrada (siguiente_nivel t) (copias c)),
        ok',
        rw (digito_pos (potencia (suc e) 2) p e (omega arith) (omega arith) low)
            (bajar-copias 0 c _ _ _ t),
      )
  cae (suc k) p high low pos = elim (dec_lt p (potencia (suc e) (suc (suc (suc k))))) [
    | yes h ↦
        let (t, ok, falla) = cae k p high h pos in
        let (c, ok') = corona (suc (suc k)) t pos ok in
        (
          tabla (entrada (siguiente_nivel t) (copias c)),
          ok',
          rw (digito_cero (potencia (suc e) (suc (suc (suc k)))) p e h)
              (paso (suc (suc k)) 0 _ (entrada (siguiente_nivel t) (copias c)) t refl ∙ falla),
        )
    | no h ↦
        let (t, ok) = agota (suc k) pos in
        let (c, ok') = corona (suc (suc k)) t pos ok in
        (
          tabla (entrada (siguiente_nivel t) (copias c)),
          ok',
          rw
              (digito_pos (potencia (suc e) (suc (suc (suc k)))) p e
                (potencia-pos (suc (suc (suc k))) e) (omega arith) low)
              (bajar-copias (suc k) c _ _ _ t),
        )
  ]

  -- For three levels or more: of a process with more than E * E frames, every page from E * E on
  -- that is within the range of the indices makes the lookup panic.
  pub marco_en-panic :
      (k p : ℕ)
      → suc e * suc e ≤ p
      → p < potencia (suc e) (suc (suc (suc k)))
      → p < length frames
      → (t : TablaPaginas) × (crear_tabla (suc (suc (suc k))) (suc e) frames ≡ some t)
        × (marco_en (suc (suc (suc k))) t (entradas_de p (suc e) (suc (suc (suc k)))) ≡ none)
  unfolding crear_tabla marco_en
  marco_en-panic k p high low in_range =
      let (t, ok, falla) = cae k p high low (omega arith) in
      let menos : suc (suc (suc k)) - 1 ≡ suc (suc k) = omega arith in
      (t, rw ok refl, rw (menos, falla) refl)
