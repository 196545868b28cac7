-- ===== src/Prelude/Agregados.antt =====
-- Where the elements of a slice are after an append or a write.
use Prim.Native.Nat.{ℕ, zero, suc}
use mathlib.Core.Path.{◌≡◌, refl}
use mathlib.Core.Logic.{◌⊎◌, inl, inr}
use mathlib.Core.List.{List, [], ◌∷◌, ◌++◌}
use mathlib.Core.Option.{some}
use conurban_os.Prelude.Listas.{length, get_elem?, set}
use conurban_os.Prelude.Pruebas.{some_inj}

pub append_antes {ℓ} :
    {A : Type ℓ} (xs ys : List A) (j : ℕ) (a : A)
    → get_elem? xs j ≡ some a
    → get_elem? (xs ++ ys) j ≡ some a
append_antes [] ys j a h = cc
append_antes (x ∷ xs) ys zero a h = h
append_antes (x ∷ xs) ys (suc j) a h = append_antes xs ys j a h

pub append_ultimo {ℓ} :
    {A : Type ℓ} (xs : List A) (a : A) → get_elem? (xs ++ a ∷ []) (length xs) ≡ some a
append_ultimo [] a = refl
append_ultimo (x ∷ xs) a = append_ultimo xs a

pub en_append {ℓ} :
    {A : Type ℓ} (es : List A) (i : ℕ) (x e : A)
    → get_elem? (es ++ x ∷ []) i ≡ some e
    → (x ≡ e) ⊎ (get_elem? es i ≡ some e)
en_append [] zero x e h = inl (some_inj h)
en_append [] (suc i) x e h = inr h
en_append (y ∷ es) zero x e h = inr h
en_append (y ∷ es) (suc i) x e h = en_append es i x e h

pub en_set {ℓ} :
    {A : Type ℓ} (es : List A) (v i : ℕ) (x e : A)
    → get_elem? (set es v x) i ≡ some e
    → (x ≡ e) ⊎ (get_elem? es i ≡ some e)
en_set [] v i x e h = inr h
en_set (y ∷ es) zero zero x e h = inl (some_inj h)
en_set (y ∷ es) zero (suc i) x e h = inr h
en_set (y ∷ es) (suc v) zero x e h = inr h
en_set (y ∷ es) (suc v) (suc i) x e h = en_set es v i x e h
