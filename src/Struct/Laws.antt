-- ===== src/Struct/Laws.antt =====
-- When a format accepts bytes, and what comes back after packing.
use mathlib.Core.Path.{subst}
use native.Mathlib.Nat.{pow-suc, mul-div_cancel, mul-mod_left}
use formula1_app.Prelude.{
  ℕ, zero, suc, ◌*◌, ◌/◌, ◌%◌, ◌^◌, ◌<◌, ◌≡◌, refl, ap, some, List, [], ◌∷◌, ◌++◌, String, length,
  take, drop, arith, length-append,
}
use formula1_app.Result.{ok}
use formula1_app.Struct.{
  Bytes, sum, number, bytes_of, read_fields, unpack_fields, read_rows, iter_unpack_fields,
  parse_format, calcsize, unpack, iter_unpack, pack_fields,
}

pub length-bytes_of : (w v : ℕ) → length (bytes_of w v) ≡ w
unfolding bytes_of
length-bytes_of zero v = refl
length-bytes_of (suc w) v = ap suc (length-bytes_of w (v / 256))

pub number-bytes_of : (w v : ℕ) → v < 256 ^ w → number (bytes_of w v) ≡ v
unfolding bytes_of number
number-bytes_of zero v h = omega arith
number-bytes_of (suc w) v h =
    omega (arith, pow-suc 256 w, number-bytes_of w (v / 256) (omega (arith, pow-suc 256 w)))

take-append : {A : Type 0} (xs ys : List A) → take (length xs) (xs ++ ys) ≡ xs
take-append [] [] = refl
take-append [] (y ∷ ys) = refl
take-append (x ∷ xs) ys = ap (λ l. x ∷ l) (take-append xs ys)

drop-append : {A : Type 0} (xs ys : List A) → drop (length xs) (xs ++ ys) ≡ ys
drop-append [] ys = refl
drop-append (x ∷ xs) ys = drop-append xs ys

-- Each value fits its field.
abbrev pub Fits : List ℕ → List ℕ → Type 0
Fits [] [] = Unit
Fits [] (v ∷ vs) = ⊥
Fits (w ∷ ws) [] = ⊥
Fits (w ∷ ws) (v ∷ vs) = (v < 256 ^ w) × Fits ws vs

pub length-pack_fields : (ws vs : List ℕ) → Fits ws vs → length (pack_fields ws vs) ≡ sum ws
unfolding pack_fields sum
length-pack_fields [] [] h = refl
length-pack_fields (w ∷ ws) (v ∷ vs) h = omega (
  arith,
  length-append (bytes_of w v) (pack_fields ws vs),
  length-bytes_of w v,
  length-pack_fields ws vs h.1,
)
length-pack_fields [] (v ∷ vs) h = absurd h
length-pack_fields (w ∷ ws) [] h = absurd h

read_fields-pack_fields : (ws vs : List ℕ) → Fits ws vs → read_fields ws (pack_fields ws vs) ≡ vs
unfolding read_fields pack_fields
read_fields-pack_fields [] [] h = refl
read_fields-pack_fields (w ∷ ws) (v ∷ vs) h =
    let t : take w (bytes_of w v ++ pack_fields ws vs) ≡ bytes_of w v =
      subst (λ k. take k (bytes_of w v ++ pack_fields ws vs) ≡ bytes_of w v) (length-bytes_of w v)
        (take-append (bytes_of w v) (pack_fields ws vs)) in
    let d : drop w (bytes_of w v ++ pack_fields ws vs) ≡ pack_fields ws vs =
      subst (λ k. drop k (bytes_of w v ++ pack_fields ws vs) ≡ pack_fields ws vs)
        (length-bytes_of w v) (drop-append (bytes_of w v) (pack_fields ws vs)) in
    rw (t, d, number-bytes_of w v h.0) (ap (λ l. v ∷ l) (read_fields-pack_fields ws vs h.1))
read_fields-pack_fields [] (v ∷ vs) h = absurd h
read_fields-pack_fields (w ∷ ws) [] h = absurd h

-- What was packed is what is unpacked.
pub unpack_fields-pack_fields :
    (ws vs : List ℕ) → Fits ws vs → unpack_fields ws (pack_fields ws vs) ≡ ok vs
unfolding unpack_fields
unpack_fields-pack_fields ws vs h =
    ground (arith, length-pack_fields ws vs h, read_fields-pack_fields ws vs h)

-- `unpack` raises exactly when the length is not the format's.
pub unpack_fields-eq-ok :
    (ws : List ℕ) (bytes : Bytes)
    → length bytes ≡ sum ws
    → unpack_fields ws bytes ≡ ok (read_fields ws bytes)
unfolding unpack_fields
unpack_fields-eq-ok ws bytes h = ground arith

pub length-read_rows : (ws : List ℕ) (n : ℕ) (bytes : Bytes) → length (read_rows ws n bytes) ≡ n
unfolding read_rows
length-read_rows ws zero bytes = refl
length-read_rows ws (suc n) bytes = ap suc (length-read_rows ws n (drop (sum ws) bytes))

pub length-read_fields : (ws : List ℕ) (bytes : Bytes) → length (read_fields ws bytes) ≡ length ws
unfolding read_fields
length-read_fields [] bytes = refl
length-read_fields (w ∷ ws) bytes = ap suc (length-read_fields ws (drop w bytes))

-- Bytes for `n` whole rows give `n` rows.
pub iter_unpack_fields-eq-ok :
    (ws : List ℕ) (n : ℕ) (bytes : Bytes)
    → 0 < sum ws
    → length bytes ≡ n * sum ws
    → iter_unpack_fields ws bytes ≡ ok (read_rows ws n bytes)
unfolding iter_unpack_fields
iter_unpack_fields-eq-ok ws n bytes pos h =
    let whole : length bytes % sum ws ≡ 0 = rw h (mul-mod_left n (sum ws)) in
    let count : length bytes / sum ws ≡ n = rw h (mul-div_cancel n pos) in
    ground (arith, whole, count)

-- The functions at a format that is known to be well formed.
module _ (format : String) (ws : List ℕ) (e : parse_format format ≡ some ws) where
  pub calcsize-eq : calcsize format ≡ ok (sum ws)
  unfolding calcsize
  calcsize-eq = rw (e, calcsize)

  pub unpack-eq : (bytes : Bytes) → unpack format bytes ≡ unpack_fields ws bytes
  unfolding unpack
  unpack-eq bytes = rw (e, unpack)

  pub iter_unpack-eq : (bytes : Bytes) → iter_unpack format bytes ≡ iter_unpack_fields ws bytes
  unfolding iter_unpack
  iter_unpack-eq bytes = rw (e, iter_unpack)
