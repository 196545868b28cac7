-- ===== src/Kernel/Orden.antt =====
-- What the kernel takes from outside: the sort of the standard library, and the arithmetic of the
-- estimates, which are float64. `veces` counts a pid in a queue.
use conurban_os.Prelude.{
  ℕ, suc, ◌<◌, ◌≡◌, List, [], ◌∷◌, Bool, true, false, some, ◌==◌, if◌then◌else◌, get_elem?,
}

abbrev pub veces : ℕ → List ℕ → ℕ
veces a [] = 0
veces a (x ∷ xs) = if x == a then suc (veces a xs) else veces a xs

-- An order that sort.Slice takes, a strict weak one on the elements of the slice: what is not before
-- is not before either by way of a third.
pub record IsEstricto (menor : ℕ → ℕ → Bool) (xs : List ℕ) : Type 0 where
  pub asimetrico :
      (a b : ℕ) → 0 < veces a xs → 0 < veces b xs → menor a b ≡ true → menor b a ≡ false
  pub negativo :
      (a b c : ℕ)
      → 0 < veces a xs
      → 0 < veces b xs
      → 0 < veces c xs
      → menor a b ≡ false
      → menor b c ≡ false
      → menor a c ≡ false

-- `sort.Slice`: the same elements, with none before the first.
pub record Sort : Type 0 where
  pub slice : (ℕ → ℕ → Bool) → List ℕ → List ℕ
  pub veces-slice :
      (menor : ℕ → ℕ → Bool) (xs : List ℕ) (a : ℕ) → veces a (slice menor xs) ≡ veces a xs
  pub primero :
      (menor : ℕ → ℕ → Bool) (xs : List ℕ) (a p i : ℕ)
      → IsEstricto menor xs
      → get_elem? (slice menor xs) 0 ≡ some p
      → get_elem? xs i ≡ some a
      → menor a p ≡ false

-- The arithmetic of float64, and the two numbers of the configuration.
pub record Estimados : Type 1 where
  pub Float : Type 0
  pub float64 : ℕ → Float
  pub mas : Float → Float → Float
  pub menos : Float → Float → Float
  pub por : Float → Float → Float
  pub menor : Float → Float → Bool
  pub alpha : Float
  pub initial_estimate : ℕ

-- The estimate after these bursts, the last one first: the initial one, and then what
-- actualizar_rafagas computes after each burst.
unfoldable pub est_sgte : (est : Estimados) → List ℕ → est.Float
est_sgte est [] = est.float64 est.initial_estimate
est_sgte est (rafaga_real ∷ antes) =
    est.mas (est.por (est.float64 rafaga_real) est.alpha)
      (est.por (est_sgte est antes) (est.menos (est.float64 1) est.alpha))
