-- ===== src/Cpu/Instruccion.antt =====
-- Decode of cpu/utils/utils.go, with what it and Execute use of the packages strings and strconv. A
-- string is the list of its bytes.
pub mod Formato
pub mod Impresion
use conurban_os.Prelude.{
  ℕ, zero, suc, ◌+◌, ◌-◌, ◌*◌, List, [], ◌∷◌, Bool, true, false, ◌&&◌, ◌||◌, Option, none, some,
  leb, ◌==◌, if◌then◌else◌, length,
}

pub record InstruccionDecodificada : Type 0 where
  pub nombre : List ℕ
  pub parametros : List (List ℕ)

-- strings.SplitN(s, " ", 2): what stands before the first space and, if there is one, after it.
unfoldable pub split_n : List ℕ → List ℕ × Option (List ℕ)
split_n [] = ([], none)
split_n (c ∷ cs) = let r = split_n cs in if c == 32 then ([], some cs) else (c ∷ r.0, r.1)

abbrev pub es_parentesis : ℕ → Bool
es_parentesis c = (c == 40) || (c == 41)

unfoldable pub trim_left : List ℕ → List ℕ
trim_left [] = []
trim_left (c ∷ cs) = let resto = trim_left cs in if es_parentesis c then resto else c ∷ cs

abbrev pub al_frente : ℕ → List ℕ → List ℕ
al_frente c [] = if es_parentesis c then [] else c ∷ []
al_frente c (x ∷ xs) = c ∷ x ∷ xs

unfoldable pub trim_right : List ℕ → List ℕ
trim_right [] = []
trim_right (c ∷ cs) = al_frente c (trim_right cs)

-- strings.Trim(s, "()")
abbrev pub trim : List ℕ → List ℕ
trim s = trim_right (trim_left s)

abbrev pub a_la_primera : ℕ → List (List ℕ) → List (List ℕ)
a_la_primera c [] = (c ∷ []) ∷ []
a_la_primera c (p ∷ ps) = (c ∷ p) ∷ ps

-- strings.Split(s, " ")
unfoldable pub split : List ℕ → List (List ℕ)
split [] = [] ∷ []
split (c ∷ cs) = let r = split cs in if c == 32 then [] ∷ r else a_la_primera c r

-- The parameters: none where the text is empty.
unfoldable pub parametros_de : Option (List ℕ) → List (List ℕ)
unfolding split
parametros_de none = []
parametros_de (some s) = elim (trim s) [ [] ↦ [] | c ∷ cs ↦ split (c ∷ cs) ]

-- The names that Decode and Execute know.
pub data Operacion : Type 0 where
  write read goto io init_proc dump_memory exit noop : Operacion

abbrev pub nombre_de : Operacion → List ℕ
nombre_de write = 87 ∷ 82 ∷ 73 ∷ 84 ∷ 69 ∷ []
nombre_de read = 82 ∷ 69 ∷ 65 ∷ 68 ∷ []
nombre_de goto = 71 ∷ 79 ∷ 84 ∷ 79 ∷ []
nombre_de io = 73 ∷ 79 ∷ []
nombre_de init_proc = 73 ∷ 78 ∷ 73 ∷ 84 ∷ 95 ∷ 80 ∷ 82 ∷ 79 ∷ 67 ∷ []
nombre_de dump_memory = 68 ∷ 85 ∷ 77 ∷ 80 ∷ 95 ∷ 77 ∷ 69 ∷ 77 ∷ 79 ∷ 82 ∷ 89 ∷ []
nombre_de exit = 69 ∷ 88 ∷ 73 ∷ 84 ∷ []
nombre_de noop = 78 ∷ 79 ∷ 79 ∷ 80 ∷ []

unfoldable pub igual : List ℕ → List ℕ → Bool
igual [] [] = true
igual [] (y ∷ ys) = false
igual (x ∷ xs) [] = false
igual (x ∷ xs) (y ∷ ys) = (x == y) && igual xs ys

-- The case of the switch that a name takes.
unfoldable pub buscar_operacion : List Operacion → List ℕ → Option Operacion
unfolding igual
buscar_operacion [] nombre = none
buscar_operacion (o ∷ os) nombre =
    let resto = buscar_operacion os nombre in if igual (nombre_de o) nombre then some o else resto

abbrev pub operaciones : List Operacion
operaciones = write ∷ read ∷ goto ∷ io ∷ init_proc ∷ dump_memory ∷ exit ∷ noop ∷ []

unfoldable pub operacion : List ℕ → Option Operacion
unfolding buscar_operacion
operacion nombre = buscar_operacion operaciones nombre

-- How many parameters the case asks for.
abbrev pub cantidad_parametros : Operacion → ℕ
cantidad_parametros write = 2
cantidad_parametros read = 2
cantidad_parametros goto = 1
cantidad_parametros io = 2
cantidad_parametros init_proc = 2
cantidad_parametros dump_memory = 0
cantidad_parametros exit = 0
cantidad_parametros noop = 0

-- The switch, after the name is looked up.
unfoldable pub admitir : Option Operacion → List ℕ → List (List ℕ) → Option InstruccionDecodificada
admitir none nombre parametros = none
admitir (some o) nombre parametros =
    if length parametros == cantidad_parametros o
    then some (record { nombre = nombre; parametros = parametros })
    else none

-- `none` is the error of Decode: another name, or another number of parameters.
unfoldable pub decode : List ℕ → Option InstruccionDecodificada
unfolding split_n parametros_de admitir operacion
decode instruccion = let r = split_n instruccion in admitir (operacion r.0) r.0 (parametros_de r.1)

-- The digits, which stop with the greatest uint64 where they pass it; `none` is another byte.
unfoldable pub digitos : ℕ → List ℕ → Option ℕ
digitos n [] = some n
digitos n (c ∷ cs) =
    let m = n * 10 + (c - 48) in
    let resto = digitos m cs in
    if leb 48 c && leb c 57
    then (if leb 18446744073709551616 m then some 18446744073709551615 else resto)
    else none

-- An error of the syntax gives 0, and no digits are one.
unfoldable pub numero : List ℕ → ℕ
unfolding digitos
numero [] = 0
numero (c ∷ cs) = elim (digitos 0 (c ∷ cs)) [ none ↦ 0 | some n ↦ n ]

-- An error of the range gives the greatest int64.
abbrev pub tope : ℕ → ℕ
tope n = if leb 9223372036854775808 n then 9223372036854775807 else n

-- The value of strconv.ParseInt(s, 10, 64), whose error the source only logs; `none` stands for a
-- negative one.
unfoldable pub parse_int : List ℕ → Option ℕ
unfolding numero
parse_int [] = some 0
parse_int (c ∷ cs) =
    if c == 45
    then (elim (numero cs) [ zero ↦ some 0 | suc n ↦ none ])
    else (if c == 43 then some (tope (numero cs)) else some (tope (numero (c ∷ cs))))
