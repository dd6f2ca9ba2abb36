-- ===== src/Services/CarFrame/Drivers.antt =====
-- Whose rows a frame has: those of the mapped drivers who are not in the garage.
use formula1_app.Prelude.{
  ℕ, zero, suc, ◌+◌, ◌≤◌, ◌<◌, ◌≡◌, refl, ap, ◌∙◌, sym, Bool, true, false, not, ◌&&◌, Option, none,
  some, List, [], ◌∷◌, ◌++◌, arith, Bool-cases, inl, inr, get_elem?, All, All-append, if◌then◌else◌,
  length, map,
}
use formula1_app.Prelude.Eq.{nat_eq}
use formula1_app.Result.{Result, ok, raise, index_error}
use formula1_app.Dict
use formula1_app.Dict.{Dict}
use formula1_app.Packets.Base.{max_cars}
use formula1_app.Packets.CarDamage.{CarDamageData}
use formula1_app.Dispatcher.State.{FrameData, FrameWrite}
use formula1_app.Services.Rows.{Value, num, Row}
use formula1_app.Services.CarFrame.{
  meta, item, telemetry_data, in_garage, is_restricted, damage_row, driver_rows, car_rows, all_rows,
  cell,
}

-- A packet that did not arrive, or that has an entry for each car.
unfoldable pub IsSized : {A : Type 0} → Option (List A) → Type 0
IsSized none = Unit
IsSized (some xs) = max_cars ≤ length xs

-- The entry of a car.
unfoldable pub entry : {A : Type 0} → Option (List A) → ℕ → Option A
entry none i = none
entry (some xs) i = get_elem? xs i

unfoldable pub AllSized : FrameData → Type 0
AllSized f =
    IsSized f.motion_data
    × IsSized (telemetry_data f.telemetry_packet)
    × IsSized f.lap_data_list
    × IsSized f.car_status_data
    × IsSized f.car_damage_data
    × IsSized f.car_telemetry2_data

-- The drivers of the `n` cars from `i` on that `keep` keeps.
unfoldable pub drivers : (ℕ → Bool) → FrameWrite → ℕ → ℕ → List ℕ
drivers keep w zero i = []
drivers keep w (suc n) i =
    let rest = drivers keep w n (suc i) in
    elim (Dict.lookup i w.user_map) [ none ↦ rest | some u ↦ if keep i then u ∷ rest else rest ]

-- A car that is not in the garage.
unfoldable pub is_out : FrameWrite → ℕ → Bool
is_out w i = not (in_garage (entry w.frame.lap_data_list i))

-- A car that is out and whose damage is known and not withheld.
unfoldable pub shows_damage : FrameWrite → ℕ → Bool
shows_damage w i =
    is_out w i
    && (elim w.frame.car_damage_data [ none ↦ false | some _ ↦ true ])
    && not (is_restricted w i)

-- The column user_id of rows.
unfoldable pub user_ids : List Row → List Value
user_ids [] = []
user_ids (row ∷ rows) = cell row 2 ∷ user_ids rows

in_range : {A : Type 0} (xs : List A) (i : ℕ) → i < length xs → (a : A) × (get_elem? xs i ≡ some a)
in_range [] i h = ground arith
in_range (x ∷ xs) zero h = (x, refl)
in_range (x ∷ xs) (suc i) h = in_range xs i (omega (arith, h))

item-entry :
    {A : Type 0} (d : Option (List A)) (i : ℕ)
    → IsSized d
    → i < max_cars
    → item d i ≡ ok (entry d i)
unfolding item entry IsSized
item-entry none i s h = refl
item-entry (some []) i s h = ground arith
item-entry (some (x ∷ xs)) i s h =
    let (a, e) = in_range (x ∷ xs) i (omega (arith, s, h)) in
    ap (λ (o : Option _). elim o [ none ↦ raise index_error | some b ↦ ok (some b) ]) e
    ∙ ap ok (sym e)

-- A row with a cell for the driver.
abbrev pub HasUser : Row → Type 0
HasUser row = 2 < length row

-- What is written: frame rows of some drivers and damage rows of others.
unfoldable pub Users : List ℕ → List ℕ → Result (List Row × List Row) → Type 0
Users us ds r =
    (rows : List Row) × (damage : List Row) × (r ≡ ok (rows, damage))
    × All HasUser rows
    × (user_ids rows ≡ map num us)
    × (user_ids damage ≡ map num ds)

damage_row-eq-ok :
    (w : FrameWrite) (t i u : ℕ) (d : Option (List CarDamageData))
    → IsSized d
    → i < max_cars
    → (rows : List Row) × (damage_row w t i u d ≡ ok rows)
      × (user_ids rows ≡ (
          if (elim d [ none ↦ false | some _ ↦ true ]) && not (is_restricted w i)
          then num u ∷ []
          else []))
unfolding damage_row IsSized user_ids cell meta
damage_row-eq-ok w t i u none s h = ([], refl, refl)
damage_row-eq-ok w t i u (some d) s h = elim (Bool-cases (is_restricted w i)) [
  | inl r ↦ rw r ([], refl, refl)
  | inr r ↦ let (a, e) = in_range d i (omega (arith, s, h)) in rw (r, e) (_, refl, refl)
]

one_if : Bool → ℕ → List ℕ
one_if c u = if c then u ∷ [] else []

map_if : (c : Bool) (u : ℕ) → (if c then num u ∷ [] else []) ≡ map num (one_if c u)
unfolding one_if
map_if true u = refl
map_if false u = refl

driver_rows-Users :
    (w : FrameWrite) (t i u : ℕ)
    → AllSized w.frame
    → i < max_cars
    → Users (one_if (is_out w i) u) (one_if (shows_damage w i) u) (driver_rows w t i u)
unfolding driver_rows AllSized Users one_if is_out shows_damage user_ids cell meta
driver_rows-Users w t i u (m, tel, l, s, d, t2) h =
    let (drows, e, f) = damage_row-eq-ok w t i u w.frame.car_damage_data d h in
    rw
      (
        item-entry w.frame.motion_data i m h,
        item-entry (telemetry_data w.frame.telemetry_packet) i tel h,
        item-entry w.frame.lap_data_list i l h,
        item-entry w.frame.car_status_data i s h,
        item-entry w.frame.car_telemetry2_data i t2 h,
      )
      (elim (Bool-cases (in_garage (entry w.frame.lap_data_list i))) [
        | inl g ↦ rw g ([], [], refl, tt, refl, refl)
        | inr g ↦ rw (g, e) (_, drows, refl, (omega arith, tt), refl, f ∙ map_if _ u)
      ])

user_ids-append : (xs ys : List Row) → user_ids (xs ++ ys) ≡ user_ids xs ++ user_ids ys
unfolding user_ids
user_ids-append [] ys = refl
user_ids-append (x ∷ xs) ys = ap (λ l. cell x 2 ∷ l) (user_ids-append xs ys)

map_append : (xs ys : List ℕ) → map num (xs ++ ys) ≡ map num xs ++ map num ys
map_append [] ys = refl
map_append (x ∷ xs) ys = ap (λ l. num x ∷ l) (map_append xs ys)

-- The driver of one car, if it is kept.
driver_if : (ℕ → Bool) → ℕ → Option ℕ → List ℕ
driver_if keep i none = []
driver_if keep i (some u) = one_if (keep i) u

driver_if-append :
    (keep : ℕ → Bool) (i : ℕ) (o : Option ℕ) (rest : List ℕ)
    → driver_if keep i o ++ rest
      ≡ elim o [ none ↦ rest | some u ↦ if keep i then u ∷ rest else rest ]
unfolding driver_if one_if
driver_if-append keep i none rest = refl
driver_if-append keep i (some u) rest = elim (Bool-cases (keep i)) [
  | inl k ↦ rw k refl
  | inr k ↦ rw k refl
]

drivers-suc :
    (keep : ℕ → Bool) (w : FrameWrite) (n i : ℕ)
    → driver_if keep i (Dict.lookup i w.user_map) ++ drivers keep w n (suc i)
      ≡ drivers keep w (suc n) i
unfolding drivers
drivers-suc keep w n i =
    driver_if-append keep i (Dict.lookup i w.user_map) (drivers keep w n (suc i))

option_rows-Users :
    (w : FrameWrite) (t i : ℕ) (o : Option ℕ)
    → AllSized w.frame
    → i < max_cars
    → Users
        (driver_if (is_out w) i o)
        (driver_if (shows_damage w) i o)
        (elim o [ none ↦ ok ([], []) | some u ↦ driver_rows w t i u ])
unfolding Users driver_if user_ids
option_rows-Users w t i none s h = ([], [], refl, tt, refl, refl)
option_rows-Users w t i (some u) s h = driver_rows-Users w t i u s h

car_rows-Users :
    (w : FrameWrite) (t i : ℕ)
    → AllSized w.frame
    → i < max_cars
    → Users
        (driver_if (is_out w) i (Dict.lookup i w.user_map))
        (driver_if (shows_damage w) i (Dict.lookup i w.user_map))
        (car_rows w t i)
unfolding car_rows
car_rows-Users w t i s h = option_rows-Users w t i (Dict.lookup i w.user_map) s h

joined :
    (rows rows' : List Row) (us vs : List ℕ)
    → user_ids rows ≡ map num us
    → user_ids rows' ≡ map num vs
    → user_ids (rows ++ rows') ≡ map num (us ++ vs)
joined rows rows' us vs p q = user_ids-append rows rows' ∙ rw (p, q) (sym (map_append us vs))

pub all_rows-Users :
    (w : FrameWrite) (t n i : ℕ)
    → AllSized w.frame
    → i + n ≤ max_cars
    → Users (drivers (is_out w) w n i) (drivers (shows_damage w) w n i) (all_rows w t n i)
unfolding all_rows Users drivers user_ids
all_rows-Users w t zero i s h = ([], [], refl, tt, refl, refl)
all_rows-Users w t (suc n) i s h =
    let (rows, damage, e, z, f, g) = car_rows-Users w t i s (omega (arith, h)) in
    let (rows', damage', e', z', f', g') = all_rows-Users w t n (suc i) s (omega (arith, h)) in
    (
      rows ++ rows',
      damage ++ damage',
      rw (e, e') refl,
      All-append HasUser rows rows' z z',
      joined rows rows' _ _ f f' ∙ ap (map num) (drivers-suc (is_out w) w n i),
      joined damage damage' _ _ g g' ∙ ap (map num) (drivers-suc (shows_damage w) w n i),
    )
