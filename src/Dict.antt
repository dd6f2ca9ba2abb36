-- ===== src/Dict.antt =====
-- Python's `dict`: an association list in insertion order. The listener's dictionaries and its
-- OrderedDicts are this type.
pub mod Laws
use formula1_app.Prelude.{
  ℕ, zero, suc, ◌+◌, ◌≤◌, ◌≡◌, refl, Bool, true, false, ◌||◌, Option, none, some, List, [], ◌∷◌,
  ◌++◌, arith, length, if◌then◌else◌,
}
use formula1_app.Prelude.Eq.{Eq, ◌=?◌, =?-refl}

abbrev pub Dict {ℓ κ} : Type ℓ → Type κ → Type (ℓ ⊔ κ)
Dict K V = List (K × V)

module _ {ℓ κ} {K : Type ℓ} {V : Type κ} where
  abbrev pub keys : Dict K V → List K
  keys [] = []
  keys ((k, v) ∷ d) = k ∷ keys d

module _ {ℓ κ} {K : Type ℓ} {V : Type κ} ⦃e : Eq K⦄ where
  -- `d.get(k)`
  unfoldable pub lookup : K → Dict K V → Option V
  lookup k [] = none
  lookup k ((j, v) ∷ d) = if k =? j then some v else lookup k d

  -- `k in d`
  unfoldable pub contains : K → Dict K V → Bool
  contains k [] = false
  contains k ((j, v) ∷ d) = k =? j || contains k d

  -- `d[k] = v`: a key keeps its place, a new key goes to the end.
  unfoldable pub put : K → V → Dict K V → Dict K V
  put k v [] = (k, v) ∷ []
  put k v ((j, w) ∷ d) = if k =? j then (j, v) ∷ d else (j, w) ∷ put k v d

  -- A write through a reference to the value of `k`: nothing happens where `k` is missing.
  unfoldable pub alter : K → V → Dict K V → Dict K V
  alter k v [] = []
  alter k v ((j, w) ∷ d) = if k =? j then (j, v) ∷ d else (j, w) ∷ alter k v d

  -- `d.pop(k, None)`, without its result.
  unfoldable pub remove : K → Dict K V → Dict K V
  remove k [] = []
  remove k ((j, w) ∷ d) = if k =? j then d else (j, w) ∷ remove k d

  -- No key twice, which a Python dict gives.
  abbrev pub Distinct : Dict K V → Type 0
  Distinct [] = Unit
  Distinct ((k, v) ∷ d) = (contains k d ≡ false) × Distinct d
