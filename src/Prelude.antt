-- ===== src/Prelude.antt =====
-- The names that the other modules share: the libraries', passed on, and those of the children.
mod Pruebas
mod Listas
mod Agregados
pub use Pruebas.*
pub use Listas.*
pub use Agregados.*
pub use Prim.Native.Nat.{ℕ, zero, suc, ◌+◌, ◌-◌, ◌*◌, ◌/◌, ◌%◌, ◌≤◌, ◌<◌}
pub use mathlib.Core.Path.{◌≡◌, refl, sym, ap, ◌∙◌}
pub use mathlib.Core.Logic.{◌≢◌, ◌↔◌, ◌⊎◌, inl, inr}
pub use mathlib.Core.Bool.{Bool, true, false, ◌&&◌, ◌||◌, not}
pub use mathlib.Core.Option.{Option, none, some}
pub use mathlib.Core.List.{List, [], ◌∷◌, ◌++◌, map}
pub use native.Mathlib.Omega.{arith}
unfoldable pub use native.Mathlib.Decide.{dec_lt, ℕ_discrete}

-- A step that may panic: `none` is a run-time panic of Go, such as an index out of range.
infixl 5 ◌>>=◌
abbrev pub ◌>>=◌ {ℓ κ} : {A : Type ℓ} {B : Type κ} → Option A → (A → Option B) → Option B
some a >>= f = f a
none >>= f = none

-- A step that gives a result has an intermediate one.
pub bind_some {ℓ κ} :
    {A : Type ℓ} {B : Type κ} (o : Option A) (f : A → Option B) {b : B}
    → (o >>= f) ≡ some b
    → (a : A) × (o ≡ some a) × (f a ≡ some b)
bind_some none f h = absurd (ground arith)
bind_some (some a) f h = (a, refl, h)

-- A Go map keyed by numbers.
abbrev pub Mapa {ℓ} : Type ℓ → Type ℓ
Mapa A = ℕ → Option A

module _ {ℓ} {A : Type ℓ} where
  -- `m[k] = v`
  unfoldable pub poner : Mapa A → ℕ → A → Mapa A
  poner m k v j = if k == j then some v else m j

  -- `delete(m, k)`
  unfoldable pub borrar : Mapa A → ℕ → Mapa A
  borrar m k j = if k == j then none else m j

  pub poner_self : (m : Mapa A) (k : ℕ) (v : A) → poner m k v k ≡ some v
  unfolding poner
  poner_self m k v = ground arith

  pub poner_ne : (m : Mapa A) (k : ℕ) (v : A) (j : ℕ) → k ≢ j → poner m k v j ≡ m j
  unfolding poner
  poner_ne m k v j h = ground arith
