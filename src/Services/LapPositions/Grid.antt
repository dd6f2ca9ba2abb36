-- ===== src/Services/LapPositions/Grid.antt =====
-- Where the drivers of a grid end up: listener/services/lap_positions.py.
use formula1_app.Prelude.{
  ℕ, zero, suc, ◌-◌, ◌≤◌, ◌≡◌, refl, ap, true, false, Option, none, some, List, [], ◌∷◌, length,
  length-set, set, ltb, ◌==◌, if◌then◌else◌, arith, get_elem?, All, Bool-cases, Option-cases, inl,
  inr, ◌⊎◌, ◌∙◌,
}
use formula1_app.Prelude.Eq.{nat_eq}
use formula1_app.Result.{Result, ok}
use formula1_app.Dict
use formula1_app.Dict.{Dict}
use formula1_app.Services.LapPositions.{assign, place}

-- The driver whom the cars from `car_index` on put at a position: the last mapped one of those that
-- stand there, and `current` if there is none.
unfoldable pub holder : ℕ → ℕ → Dict ℕ ℕ → List ℕ → ℕ → ℕ
holder position car_index user_map [] current = current
holder position car_index user_map (p ∷ row) current =
    holder position (suc car_index) user_map row (
      if p == position
      then elim (Dict.lookup car_index user_map) [ none ↦ current | some u ↦ u ]
      else current)

abbrev at_position : ℕ → ℕ → Dict ℕ ℕ → List ℕ → Option ℕ → Option ℕ
at_position k car_index user_map row none = none
at_position k car_index user_map row (some d) = some (holder (suc k) car_index user_map row d)

get_elem?-set :
    (xs : List ℕ) (i k v : ℕ)
    → get_elem? (set xs i v) k
      ≡ elim (get_elem? xs k) [ none ↦ none | some d ↦ some (if k == i then v else d) ]
get_elem?-set [] i k v = refl
get_elem?-set (x ∷ xs) zero zero v = refl
get_elem?-set (x ∷ xs) zero (suc k) v = ground arith
get_elem?-set (x ∷ xs) (suc i) zero v = ground arith
get_elem?-set (x ∷ xs) (suc i) (suc k) v = ground (arith, get_elem?-set xs i k v)

-- A car that stands nowhere, or is not in the map, holds no position.
at_position_skip :
    (k i : ℕ) (m : Dict ℕ ℕ) (p : ℕ) (row : List ℕ) (o : Option ℕ)
    → ((p == 0) ≡ true) ⊎ (Dict.lookup i m ≡ none)
    → at_position k (suc i) m row o ≡ at_position k i m (p ∷ row) o
unfolding holder
at_position_skip k i m p row none h = refl
at_position_skip k i m p row (some d) (inl z) = ground arith
at_position_skip k i m p row (some d) (inr e) = ground (arith, e)

at_position_nil : (k i : ℕ) (m : Dict ℕ ℕ) (o : Option ℕ) → o ≡ at_position k i m [] o
unfolding holder
at_position_nil k i m none = refl
at_position_nil k i m (some d) = refl

at_position_hold :
    (k i : ℕ) (m : Dict ℕ ℕ) (p u : ℕ) (row : List ℕ) (o : Option ℕ)
    → (p == 0) ≡ false
    → Dict.lookup i m ≡ some u
    → at_position k
        (suc i)
        m
        row
        (elim o [ none ↦ none | some d ↦ some (if k == (p - 1) then u else d) ])
      ≡ at_position k i m (p ∷ row) o
unfolding holder
at_position_hold k i m p u row none z e = refl
at_position_hold k i m p u row (some d) z e = elim (Bool-cases (k == (p - 1))) [
  | inl y ↦ ground (arith, e)
  | inr n ↦ ground (arith, e)
]

-- What the loop over the cars gives.
abbrev pub Placed : ℕ → Dict ℕ ℕ → List ℕ → List ℕ → Result (List ℕ) → Type 0
Placed car_index user_map row positions r =
    (after : List ℕ) × (r ≡ ok after)
    × ((k : ℕ) → get_elem? after k ≡ at_position k car_index user_map row (get_elem? positions k))

-- A row of positions, none of which is above the length of the array, is placed without an
-- IndexError, and each position of the array then holds the driver of the last mapped car that
-- stands there, or what it held if there is none.
pub place-Placed :
    (car_index : ℕ) (m : Dict ℕ ℕ) (row positions : List ℕ)
    → All (λ p. p ≤ length positions) row
    → Placed car_index m row positions (place (length row) car_index m row positions)
unfolding place assign
place-Placed i m [] a h = (a, refl, λ k. at_position_nil k i m (get_elem? a k))
place-Placed i m (p ∷ row) a h = elim (Bool-cases (p == 0)) [
  | inl z ↦
      let (b, e, f) = place-Placed (suc i) m row a h.1 in
      (b, rw z e, λ k. f k ∙ at_position_skip k i m p row (get_elem? a k) (inl z))
  | inr nz ↦ elim (Option-cases (Dict.lookup i m)) [
    | inl l ↦
        let (b, e, f) = place-Placed (suc i) m row a h.1 in
        (b, rw (nz, l) e, λ k. f k ∙ at_position_skip k i m p row (get_elem? a k) (inr l))
    | inr (u, l) ↦
        let a' : List ℕ = set a (p - 1) u in
        let fits : ltb (p - 1) (length a) ≡ true = ground (arith, h.0) in
        let (b, e, f) = place-Placed (suc i) m row a' (rw (length-set a (p - 1) u) h.1) in
        (
          b,
          rw (nz, l, assign, fits) e,
          λ k.
              f k
              ∙ ap (at_position k (suc i) m row) (get_elem?-set a (p - 1) k u)
              ∙ at_position_hold k i m p u row (get_elem? a k) nz l,
        )
  ]
]
