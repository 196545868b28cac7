-- ===== src/Memoria/Marcos/Asignacion.antt =====
-- What marking free frames as taken changes.
use conurban_os.Prelude.{
  ℕ, zero, suc, ◌+◌, ◌<◌, ◌≡◌, refl, List, [], ◌∷◌, Bool, true, false, some, arith, get_elem?,
  get_elem?_lt, set, length, length-set, get_elem?-set_self, get_elem?-set_ne, if◌then◌else◌, ◌==◌,
  ◌||◌, lt→ltb, ◌∙◌,
}
use conurban_os.Memoria.Marcos.{asignar_frames_a_proceso, contar_libres}
use conurban_os.Memoria.Marcos.Busqueda.{Libres}

abbrev pub pertenece : ℕ → List ℕ → Bool
pertenece f [] = false
pertenece f (g ∷ fs) = (g == f) || pertenece f fs

contar_libres-set :
    (ocupados : List Bool) (f : ℕ)
    → get_elem? ocupados f ≡ some false
    → contar_libres (set ocupados f true) + 1 ≡ contar_libres ocupados
unfolding contar_libres
contar_libres-set [] f h = absurd (ground arith)
contar_libres-set (true ∷ ocupados) zero h = absurd (ground arith)
contar_libres-set (false ∷ ocupados) zero h = omega arith
contar_libres-set (true ∷ ocupados) (suc f) h = contar_libres-set ocupados f h
contar_libres-set (false ∷ ocupados) (suc f) h = omega (arith, contar_libres-set ocupados f h)

Libres-set :
    (lo f : ℕ) (fs : List ℕ) (ocupados : List Bool)
    → f < lo
    → Libres lo fs ocupados
    → Libres lo fs (set ocupados f true)
Libres-set lo f [] ocupados h l = tt
Libres-set lo f (g ∷ fs) ocupados h l = (
  l.0,
  get_elem?-set_ne ocupados f g true (omega arith) ∙ l.1,
  Libres-set (suc g) f fs ocupados (omega arith) l.2,
)

marca :
    (g f : ℕ) (fs : List ℕ) (ocupados : List Bool)
    → g < length ocupados
    → (if pertenece f fs then some true else get_elem? (set ocupados g true) f)
      ≡ (if pertenece f (g ∷ fs) then some true else get_elem? ocupados f)
marca g f fs ocupados h =
    ground (arith, get_elem?-set_self ocupados g true, get_elem?-set_ne ocupados g f true)

-- Marking free frames in increasing order does not panic; it takes one free frame for each, marks these and no other.
pub asignar_frames_lem :
    (lo : ℕ) (fs : List ℕ) (ocupados : List Bool)
    → Libres lo fs ocupados
    → (ocupados' : List Bool) × (asignar_frames_a_proceso fs ocupados ≡ some ocupados')
      × (length ocupados' ≡ length ocupados)
      × (contar_libres ocupados' + length fs ≡ contar_libres ocupados)
      × ((f : ℕ)
          → get_elem? ocupados' f ≡ (if pertenece f fs then some true else get_elem? ocupados f))
unfolding asignar_frames_a_proceso
asignar_frames_lem lo [] ocupados l = (ocupados, refl, refl, omega arith, λ f. refl)
asignar_frames_lem lo (g ∷ fs) ocupados l =
    let en_rango : g < length ocupados = get_elem?_lt ocupados g false l.1 in
    let (ocupados', ok, largo, cuenta, marcas) =
      asignar_frames_lem (suc g) fs (set ocupados g true)
        (Libres-set (suc g) g fs ocupados (omega arith) l.2) in
    (
      ocupados',
      rw (lt→ltb _ _ en_rango) ok,
      largo ∙ length-set ocupados g true,
      omega (arith, cuenta, contar_libres-set ocupados g l.1),
      λ f. marcas f ∙ marca g f fs ocupados en_rango,
    )
