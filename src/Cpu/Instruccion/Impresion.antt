-- ===== src/Cpu/Instruccion/Impresion.antt =====
-- The instructions of a script read back.
use conurban_os.Prelude.{
  ℕ, ◌≡◌, ◌≢◌, refl, ap, ◌∙◌, List, [], ◌∷◌, ◌++◌, Bool, true, false, some, none, inl, inr, not,
  ◌&&◌, Bool-cases, arith, length, ◌==◌,
}
use conurban_os.Cpu.Instruccion.{
  Operacion, write, read, goto, io, init_proc, dump_memory, exit, noop, nombre_de, split_n, split,
  trim, trim_left, trim_right, al_frente, es_parentesis, parametros_de, operacion, buscar_operacion,
  igual, cantidad_parametros, decode, admitir,
}

-- The text of a list of parameters: a space before each one.
abbrev pub con_espacios : List (List ℕ) → List ℕ
con_espacios [] = []
con_espacios (p ∷ ps) = 32 ∷ p ++ con_espacios ps

-- The text of an instruction.
abbrev pub imprimir : Operacion → List (List ℕ) → List ℕ
imprimir o ps = nombre_de o ++ con_espacios ps

-- Without a space, and without a parenthesis.
abbrev pub llano : List ℕ → Bool
llano [] = true
llano (c ∷ cs) = not (c == 32) && not (es_parentesis c) && llano cs

-- Words with something in them.
abbrev pub Llanos : List (List ℕ) → Type 0
Llanos [] = Unit
Llanos (p ∷ ps) = (p ≢ []) × (llano p ≡ true) × Llanos ps

llano_cons :
    (c : ℕ) (cs : List ℕ)
    → llano (c ∷ cs) ≡ true
    → ((c == 32) ≡ false) × (es_parentesis c ≡ false) × (llano cs ≡ true)
llano_cons c cs h = elim (Bool-cases (c == 32)) [
  | inl si ↦ absurd (let h' = rw si at h in ground arith)
  | inr no_ ↦ elim (Bool-cases (es_parentesis c)) [
    | inl si ↦ absurd (let h' = rw (no_, si) at h in ground arith)
    | inr fuera ↦ (no_, fuera, rw (no_, fuera) at h)
  ]
]

split_n-palabra : (p resto : List ℕ) → llano p ≡ true → split_n (p ++ 32 ∷ resto) ≡ (p, some resto)
unfolding split_n
split_n-palabra [] resto l = refl
split_n-palabra (c ∷ p) resto l =
    let (no_, _, lp) = llano_cons c p l in let ih = split_n-palabra p resto lp in rw (no_, ih) refl

split_n-sola : (p : List ℕ) → llano p ≡ true → split_n (p ++ []) ≡ (p, none)
unfolding split_n
split_n-sola [] l = refl
split_n-sola (c ∷ p) l =
    let (no_, _, lp) = llano_cons c p l in let ih = split_n-sola p lp in rw (no_, ih) refl

nombre-llano : (o : Operacion) → llano (nombre_de o) ≡ true
nombre-llano write = refl
nombre-llano read = refl
nombre-llano goto = refl
nombre-llano io = refl
nombre-llano init_proc = refl
nombre-llano dump_memory = refl
nombre-llano exit = refl
nombre-llano noop = refl

operacion-nombre : (o : Operacion) → operacion (nombre_de o) ≡ some o
unfolding operacion buscar_operacion igual
operacion-nombre write = refl
operacion-nombre read = refl
operacion-nombre goto = refl
operacion-nombre io = refl
operacion-nombre init_proc = refl
operacion-nombre dump_memory = refl
operacion-nombre exit = refl
operacion-nombre noop = refl

split-palabra : (p resto : List ℕ) → llano p ≡ true → split (p ++ 32 ∷ resto) ≡ p ∷ split resto
unfolding split
split-palabra [] resto l = refl
split-palabra (c ∷ p) resto l =
    let (no_, _, lp) = llano_cons c p l in let ih = split-palabra p resto lp in rw (no_, ih) refl

split-sola : (p : List ℕ) → llano p ≡ true → split (p ++ []) ≡ p ∷ []
unfolding split
split-sola [] l = refl
split-sola (c ∷ p) l =
    let (no_, _, lp) = llano_cons c p l in let ih = split-sola p lp in rw (no_, ih) refl

split-texto :
    (p : List ℕ) (ps : List (List ℕ))
    → llano p ≡ true
    → Llanos ps
    → split (p ++ con_espacios ps) ≡ p ∷ ps
split-texto p [] l ls = split-sola p l
split-texto p (q ∷ ps) l (_, lq, ls) =
    split-palabra p (q ++ con_espacios ps) l ∙ ap (λ r. p ∷ r) (split-texto q ps lq ls)

-- No parenthesis.
abbrev limpio : List ℕ → Bool
limpio [] = true
limpio (c ∷ cs) = not (es_parentesis c) && limpio cs

limpio-palabra :
    (p resto : List ℕ) → llano p ≡ true → limpio resto ≡ true → limpio (p ++ resto) ≡ true
limpio-palabra [] resto l r = r
limpio-palabra (c ∷ p) resto l r =
    let (_, fuera, lp) = llano_cons c p l in
    let ih = limpio-palabra p resto lp r in rw (fuera, ih) refl

limpio-espacios : (ps : List (List ℕ)) → Llanos ps → limpio (con_espacios ps) ≡ true
limpio-espacios [] ls = refl
limpio-espacios (p ∷ ps) (_, lp, ls) = limpio-palabra p (con_espacios ps) lp (limpio-espacios ps ls)

trim_right-limpio : (s : List ℕ) → limpio s ≡ true → trim_right s ≡ s
unfolding trim_right
trim_right-limpio [] l = refl
trim_right-limpio (c ∷ s) l = elim (Bool-cases (es_parentesis c)) [
  | inl si ↦ absurd (let h' = rw si at l in ground arith)
  | inr fuera ↦ ap (al_frente c) (trim_right-limpio s (rw fuera at l)) ∙ al_frente-queda c s fuera
]
  where
    al_frente-queda : (c : ℕ) (s : List ℕ) → es_parentesis c ≡ false → al_frente c s ≡ c ∷ s
    al_frente-queda c [] h = rw h refl
    al_frente-queda c (x ∷ xs) h = refl

trim-limpio : (s : List ℕ) → limpio s ≡ true → trim s ≡ s
unfolding trim_left
trim-limpio [] l = trim_right-limpio [] l
trim-limpio (c ∷ s) l = elim (Bool-cases (es_parentesis c)) [
  | inl si ↦ absurd (let h' = rw si at l in ground arith)
  | inr fuera ↦ rw fuera (trim_right-limpio (c ∷ s) l)
]

parametros_lem :
    (p : List ℕ) (ps : List (List ℕ))
    → Llanos (p ∷ ps)
    → parametros_de (some (p ++ con_espacios ps)) ≡ p ∷ ps
unfolding parametros_de
parametros_lem [] ps (hay, lp, ls) = absurd (hay refl)
parametros_lem (c ∷ p) ps (hay, lp, ls) =
    let texto = c ∷ p ++ con_espacios ps in
    let igual_ : trim texto ≡ texto =
      trim-limpio texto (limpio-palabra (c ∷ p) (con_espacios ps) lp (limpio-espacios ps ls)) in
    ap {B = List (List ℕ)} (λ r. elim r [ [] ↦ [] | x ∷ xs ↦ split (x ∷ xs) ]) igual_
    ∙ split-texto (c ∷ p) ps lp ls

-- An instruction that is written out with as many parameters as its name asks for, each of them a
-- word without parentheses, is decoded into its name and these parameters.
pub decode-imprimir :
    (o : Operacion) (ps : List (List ℕ))
    → length ps ≡ cantidad_parametros o
    → Llanos ps
    → decode (imprimir o ps) ≡ some (record { nombre = nombre_de o; parametros = ps })
unfolding decode admitir
decode-imprimir o [] h ls =
    let corte = split_n-sola (nombre_de o) (nombre-llano o) in
    let vacio : parametros_de none ≡ [] = refl in
    let es = operacion-nombre o in
    let cabe : (0 == cantidad_parametros o) ≡ true = ground arith in rw (corte, es, cabe) refl
decode-imprimir o (p ∷ ps) h ls =
    let corte = split_n-palabra (nombre_de o) (p ++ con_espacios ps) (nombre-llano o) in
    let es = operacion-nombre o in
    let cabe : (length (p ∷ ps) == cantidad_parametros o) ≡ true = ground arith in
    let son = parametros_lem p ps ls in rw (corte, es, son, cabe) refl
