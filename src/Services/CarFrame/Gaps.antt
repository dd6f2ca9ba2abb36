-- ===== src/Services/CarFrame/Gaps.antt =====
-- The gap to the car behind is the gap ahead that the car one position back reports.
use formula1_app.Prelude.{
  ℕ, zero, suc, ◌+◌, ◌<◌, ◌≡◌, ◌≢◌, refl, ap, ◌∙◌, Bool, false, Option, none, some, List, [], ◌∷◌,
  ◌++◌, arith, Bool-cases, inl, inr, get_elem?, ◌==◌, if◌then◌else◌, take, drop, length, ◌<◌,
}
use formula1_app.Prelude.Eq.{nat_eq}
use formula1_app.Dict
use formula1_app.Dict.{Dict}
use formula1_app.Dict.Laws.{lookup-put}
use formula1_app.Services.Rows.{Value, Row}
use formula1_app.Services.Rows.Columns.{column_index?}
use formula1_app.Services.CarFrame.{
  idx_gap_ahead, idx_gap_behind, cell, position_of, gap_ahead_by_position, is_null, with_gap_behind,
  fill_row, fill_each, fill_gap_to_car_behind,
}

abbrev matches : ℕ → Option ℕ → Bool
matches p none = false
matches p (some q) = q == p

-- The last row of a position.
unfoldable pub row_at : ℕ → List Row → Option Row
row_at p [] = none
row_at p (row ∷ rows) = elim (row_at p rows) [
  | none ↦ if matches p (position_of row) then some row else none
  | some r ↦ some r
]

-- What a row should have as its gap behind: the gap ahead of the row one position back, if both are
-- known, and what it had otherwise.
unfoldable pub gap_behind : List Row → Row → Value
gap_behind rows row = elim (position_of row) [
  | none ↦ cell row idx_gap_behind
  | some p ↦ elim (row_at (p + 1) rows) [
    | none ↦ cell row idx_gap_behind
    | some behind ↦
        if is_null (cell behind idx_gap_ahead)
        then cell row idx_gap_behind
        else cell behind idx_gap_ahead
  ]
]

-- The gap ahead of the last row of a position, or what was known before.
gap_at : Option Row → Option Value → Option Value
gap_at none known = known
gap_at (some row) known = some (cell row idx_gap_ahead)

put_row :
    (p : ℕ) (row : Row) (gaps : Dict ℕ Value) (o : Option ℕ)
    → Dict.lookup p (elim o [ none ↦ gaps | some q ↦ Dict.put q (cell row idx_gap_ahead) gaps ])
      ≡ gap_at (if matches p o then some row else none) (Dict.lookup p gaps)
unfolding gap_at
put_row p row gaps none = refl
put_row p row gaps (some q) =
    rw (lookup-put p q (cell row idx_gap_ahead) gaps)
      (elim (Bool-cases (q == p)) [ inl y ↦ ground arith | inr n ↦ ground arith ])

gap_at_row :
    (o : Option Row) (c : Bool) (row : Row) (known : Option Value)
    → gap_at o (gap_at (if c then some row else none) known)
      ≡ gap_at (elim o [ none ↦ if c then some row else none | some r ↦ some r ]) known
unfolding gap_at
gap_at_row none c row known = refl
gap_at_row (some r) c row known = refl

lookup-gap_ahead_by_position :
    (p : ℕ) (rows : List Row) (gaps : Dict ℕ Value)
    → Dict.lookup p (gap_ahead_by_position rows gaps) ≡ gap_at (row_at p rows) (Dict.lookup p gaps)
unfolding gap_ahead_by_position row_at gap_at
lookup-gap_ahead_by_position p [] gaps = refl
lookup-gap_ahead_by_position p (row ∷ rows) gaps =
    lookup-gap_ahead_by_position p rows
      (elim (position_of row) [ none ↦ gaps | some q ↦ Dict.put q (cell row idx_gap_ahead) gaps ])
    ∙ ap (gap_at (row_at p rows)) (put_row p row gaps (position_of row))
    ∙ gap_at_row (row_at p rows) (matches p (position_of row)) row (Dict.lookup p gaps)

-- A cell of a row with another value in one column.
get_elem?-replaced :
    (n : ℕ) (row : Row) (v : Value) (i : ℕ)
    → n < length row
    → get_elem? (take n row ++ v ∷ drop (n + 1) row) i
      ≡ (if i == n then some v else get_elem? row i)
get_elem?-replaced n [] v i h = ground arith
get_elem?-replaced zero (x ∷ row) v zero h = refl
get_elem?-replaced zero (x ∷ row) v (suc i) h = ground arith
get_elem?-replaced (suc n) (x ∷ row) v zero h = ground arith
get_elem?-replaced (suc n) (x ∷ row) v (suc i) h = ground (arith, get_elem?-replaced n row v i)

fill_each-get_elem? :
    (gaps : Dict ℕ Value) (rows : List Row) (k : ℕ)
    → get_elem? (fill_each gaps rows) k
      ≡ elim (get_elem? rows k) [ none ↦ none | some row ↦ some (fill_row gaps row) ]
unfolding fill_each
fill_each-get_elem? gaps [] k = refl
fill_each-get_elem? gaps (row ∷ rows) zero = refl
fill_each-get_elem? gaps (row ∷ rows) (suc k) = fill_each-get_elem? gaps rows k

cell-with_gap_behind :
    (v : Value) (row : Row) (i : ℕ)
    → idx_gap_behind < length row
    → cell (with_gap_behind v row) i ≡ (if i == idx_gap_behind then v else cell row i)
unfolding cell with_gap_behind column_index?
cell-with_gap_behind v row i h =
    rw (get_elem?-replaced idx_gap_behind row v i h)
      (elim (Bool-cases (i == idx_gap_behind)) [ inl y ↦ ground arith | inr n ↦ ground arith ])

-- A row behind the second pass: one cell has the value, the others are as they were.
abbrev pub FilledWith : Value → Row → Row → Type 0
FilledWith v row after =
    (cell after idx_gap_behind ≡ v) × ((i : ℕ) → i ≢ idx_gap_behind → cell after i ≡ cell row i)

replaced-FilledWith :
    (v : Value) (row : Row) → idx_gap_behind < length row → FilledWith v row (with_gap_behind v row)
replaced-FilledWith v row h = (
  cell-with_gap_behind v row idx_gap_behind h ∙ ground arith,
  λ i ne. cell-with_gap_behind v row i h ∙ ground arith,
)

-- The two tests of the loop's body, on the last row one position back.
filled_from :
    (row : Row) (o : Option Row)
    → idx_gap_behind < length row
    → FilledWith
        (elim o [
          | none ↦ cell row idx_gap_behind
          | some behind ↦
              if is_null (cell behind idx_gap_ahead)
              then cell row idx_gap_behind
              else cell behind idx_gap_ahead
        ])
        row
        (elim (gap_at o none) [
          | none ↦ row
          | some v ↦ if is_null v then row else with_gap_behind v row
        ])
unfolding gap_at
filled_from row none h = (refl, λ i ne. refl)
filled_from row (some behind) h = elim (Bool-cases (is_null (cell behind idx_gap_ahead))) [
  | inl y ↦ rw y (refl, λ i ne. refl)
  | inr n ↦ rw n (replaced-FilledWith (cell behind idx_gap_ahead) row h)
]

filled_at :
    (rows : List Row) (row : Row) (o : Option ℕ)
    → idx_gap_behind < length row
    → FilledWith
        (elim o [
          | none ↦ cell row idx_gap_behind
          | some p ↦ elim (row_at (p + 1) rows) [
            | none ↦ cell row idx_gap_behind
            | some behind ↦
                if is_null (cell behind idx_gap_ahead)
                then cell row idx_gap_behind
                else cell behind idx_gap_ahead
          ]
        ])
        row
        (elim o [
          | none ↦ row
          | some p ↦ elim (Dict.lookup (p + 1) (gap_ahead_by_position rows [])) [
            | none ↦ row
            | some v ↦ if is_null v then row else with_gap_behind v row
          ]
        ])
unfolding Dict.lookup
filled_at rows row none h = (refl, λ i ne. refl)
filled_at rows row (some p) h =
    rw (lookup-gap_ahead_by_position (p + 1) rows []) (filled_from row (row_at (p + 1) rows) h)

fill_row-FilledWith :
    (rows : List Row) (row : Row)
    → idx_gap_behind < length row
    → FilledWith (gap_behind rows row) row (fill_row (gap_ahead_by_position rows []) row)
unfolding gap_behind fill_row
fill_row-FilledWith rows row h = filled_at rows row (position_of row) h

-- The second pass over the rows of a frame gives each row that is long enough, as its gap to the
-- car behind, the gap ahead of the last row one position further back, if both positions are known
-- and that gap is not NULL, and what it held otherwise; no other cell of the row changes.
pub fill_gap_to_car_behind-FilledWith :
    (rows : List Row) (k : ℕ) (row : Row)
    → get_elem? rows k ≡ some row
    → idx_gap_behind < length row
    → (after : Row) × (get_elem? (fill_gap_to_car_behind rows) k ≡ some after)
      × FilledWith (gap_behind rows row) row after
unfolding fill_gap_to_car_behind
fill_gap_to_car_behind-FilledWith rows k row e h = (
  fill_row (gap_ahead_by_position rows []) row,
  rw (fill_each-get_elem? (gap_ahead_by_position rows []) rows k, e) refl,
  fill_row-FilledWith rows row h,
)
