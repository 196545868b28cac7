-- ===== src/Cpu/Instruccion/Formato.antt =====
-- What Decode lets through.
use conurban_os.Prelude.{
  ℕ, ◌≡◌, refl, ◌==◌, sym, inl, inr, ap, List, some, none, Option, Bool-cases, some_inj, arith,
  length,
}
use conurban_os.Cpu.Instruccion.{
  InstruccionDecodificada, Operacion, split_n, parametros_de, operacion, cantidad_parametros,
  decode, admitir,
}

admitir_lem :
    (r : Option Operacion) (nombre : List ℕ) (parametros : List (List ℕ))
    (i : InstruccionDecodificada)
    → admitir r nombre parametros ≡ some i
    → (o : Operacion) × (r ≡ some o)
      × (length parametros ≡ cantidad_parametros o)
      × (record { nombre = nombre; parametros = parametros } ≡ i)
unfolding admitir
admitir_lem none nombre parametros i h = absurd (ground arith)
admitir_lem (some o) nombre parametros i h =
    elim (Bool-cases (length parametros == cantidad_parametros o)) [
      | inl si ↦ (o, refl, ground arith, some_inj (rw si at h))
      | inr no_ ↦ absurd (let h' = rw no_ at h in ground arith)
    ]

-- An instruction that is decoded has the name that stands before the first space, one of eight, and
-- the parameters that stand after it, as many as the name asks for.
pub decode-Admitida :
    (s : List ℕ) (i : InstruccionDecodificada)
    → decode s ≡ some i
    → (o : Operacion) × (operacion i.nombre ≡ some o)
      × (length i.parametros ≡ cantidad_parametros o)
      × (i.nombre ≡ (split_n s).0)
      × (i.parametros ≡ parametros_de (split_n s).1)
unfolding decode
decode-Admitida s i h =
    let (o, hay, largo, es) =
      admitir_lem (operacion (split_n s).0) (split_n s).0 (parametros_de (split_n s).1) i h in
    let n : (split_n s).0 ≡ i.nombre = ap (λ x. x.nombre) es in
    let p : parametros_de (split_n s).1 ≡ i.parametros = ap (λ x. x.parametros) es in
    (o, rw (← n) hay, rw (← p) largo, sym n, sym p)
