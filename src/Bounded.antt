-- ===== src/Bounded.antt =====
-- listener/utils/bounded_dict.py and listener/utils/bounded_set.py: a dictionary and a set with a
-- maximum size, which drop the entry that was written longest ago. The OrderedDict is the list
-- `entries`, oldest first.
pub mod Laws
pub mod Recency
pub mod Entries
pub mod Pairs
use formula1_app.Prelude.{
  ℕ, ◌≤◌, ◌<◌, Bool, Option, none, some, List, [], ◌∷◌, ◌++◌, length, leb, if◌then◌else◌,
}
use formula1_app.Prelude.Eq.{Eq}
use formula1_app.Dict
use formula1_app.Dict.{Dict}

pub record BoundedDict {ℓ} (K V : Type ℓ) : Type ℓ where
  pub max_size : ℕ
  pub entries : Dict K V

-- `BoundedSet` stores `None` at each item.
abbrev pub BoundedSet : Type 0 → Type 0
BoundedSet K = BoundedDict K (Unit {0})

abbrev pub init {ℓ} : {K V : Type ℓ} → ℕ → BoundedDict K V
init n = record { max_size = n; entries = [] }

-- `popitem(last=False)`; `none` is the KeyError of an empty dictionary.
unfoldable pub popitem {ℓ} : {K V : Type ℓ} → Dict K V → Option (Dict K V)
popitem [] = none
popitem (x ∷ xs) = some xs

module _ {ℓ} {K V : Type ℓ} ⦃e : Eq K⦄ where
  unfoldable pub get : BoundedDict K V → K → Option V
  get d k = Dict.lookup k d.entries

  unfoldable pub has : BoundedDict K V → K → Bool
  has d k = Dict.contains k d.entries

  -- `d[k] = v`, with the KeyError that `popitem` raises where `max_size` is 0.
  unfoldable pub set_item? : BoundedDict K V → K → V → Option (BoundedDict K V)
  unfolding popitem
  set_item? d k v =
      if Dict.contains k d.entries
      then some (record d { entries = Dict.remove k d.entries ++ (k, v) ∷ [] })
      else if leb d.max_size (length d.entries)
      then elim (popitem d.entries) [
        | none ↦ none
        | some rest ↦ some (record d { entries = rest ++ (k, v) ∷ [] })
      ]
      else some (record d { entries = d.entries ++ (k, v) ∷ [] })

  -- The same for the sizes above 0 that the program uses: `set_item?-eq-some`.
  unfoldable pub set_item : BoundedDict K V → K → V → BoundedDict K V
  unfolding set_item?
  set_item d k v = elim (set_item? d k v) [ none ↦ d | some d' ↦ d' ]

  -- A write to the stored value through a reference, which keeps the entry's place.
  unfoldable pub alter : BoundedDict K V → K → V → BoundedDict K V
  alter d k v = record d { entries = Dict.alter k v d.entries }

  -- `d.pop(k)`, without its result.
  unfoldable pub pop : BoundedDict K V → K → BoundedDict K V
  pop d k = record d { entries = Dict.remove k d.entries }

-- `s.add(item)`: the statements of `__setitem__`, with `None` for the value.
unfoldable pub add : {K : Type 0} ⦃e : Eq K⦄ → BoundedSet K → K → BoundedSet K
unfolding set_item
add s k = set_item s k tt

pub record IsValid {ℓ} {K V : Type ℓ} ⦃e : Eq K⦄ (d : BoundedDict K V) : Type 0 where
  pub positive : 0 < d.max_size
  pub bounded : length d.entries ≤ d.max_size
  pub distinct : Dict.Distinct d.entries
