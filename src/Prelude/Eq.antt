-- ===== src/Prelude/Eq.antt =====
-- Python's `==` on the keys of dictionaries and sets: numbers, and tuples of them.
use Prim.Native.Nat.{ℕ}
use mathlib.Core.Path.{◌≡◌, refl, subst}
use mathlib.Core.List.{List, [], ◌∷◌}
use mathlib.Core.Option.{Option, none, some}
use mathlib.Core.Logic.{◌↔◌}
use mathlib.Core.Bool.{Bool, true, false, ◌&&◌}
use native.Mathlib.Omega.{arith}
use formula1_app.Prelude.Tests.{◌==◌ as nat_beq, ==_iff}

pub record Eq {ℓ} (A : Type ℓ) : Type ℓ where
  pub beq : A → A → Bool
  pub beq_iff : (a b : A) → (beq a b ≡ true) ↔ (a ≡ b)

infix 50 ◌=?◌
abbrev pub ◌=?◌ {ℓ} : {A : Type ℓ} ⦃e : Eq A⦄ → A → A → Bool
◌=?◌ ⦃e⦄ = e.beq

-- The law of `=?` in the two directions, for `ground`.
module _ {ℓ} {A : Type ℓ} ⦃e : Eq A⦄ where
  pub =?-refl : (a : A) → (a =? a) ≡ true
  =?-refl a = (e.beq_iff a a).1 refl

  pub eq_of_=? : (a b : A) → (a =? b) ≡ true → a ≡ b
  eq_of_=? a b h = (e.beq_iff a b).0 h

instance abbrev pub nat_eq : Eq ℕ
nat_eq = record { beq = nat_beq; beq_iff = ==_iff }

module _ {ℓ} {A B : Type ℓ} ⦃a : Eq A⦄ ⦃b : Eq B⦄ where
  pub pair_beq_iff : (p q : A × B) → ((a.beq p.0 q.0 && b.beq p.1 q.1) ≡ true) ↔ (p ≡ q)
  pair_beq_iff (x, y) (u, v) = (
    λ h. ground (arith, a.beq_iff x u, b.beq_iff y v),
    λ h. ground (arith, a.beq_iff x u, b.beq_iff y v),
  )

  instance abbrev pub pair_eq : Eq (A × B)
  pair_eq = record { beq = λ p q. a.beq p.0 q.0 && b.beq p.1 q.1; beq_iff = pair_beq_iff }

module _ {ℓ} {A : Type ℓ} ⦃a : Eq A⦄ where
  abbrev pub list_beq : List A → List A → Bool
  list_beq [] [] = true
  list_beq (x ∷ xs) (y ∷ ys) = a.beq x y && list_beq xs ys
  list_beq _ _ = false

  pub list_beq_sound : (xs ys : List A) → list_beq xs ys ≡ true → xs ≡ ys
  list_beq_sound [] [] h = refl
  list_beq_sound (x ∷ xs) (y ∷ ys) h = ground (arith, a.beq_iff x y, list_beq_sound xs ys)
  list_beq_sound [] (y ∷ ys) h = ground arith
  list_beq_sound (x ∷ xs) [] h = ground arith

  pub list_beq_refl : (xs : List A) → list_beq xs xs ≡ true
  list_beq_refl [] = refl
  list_beq_refl (x ∷ xs) = ground (arith, a.beq_iff x x, list_beq_refl xs)

  instance abbrev pub list_eq : Eq (List A)
  list_eq = record {
    beq = list_beq;
    beq_iff = λ xs ys.
        (list_beq_sound xs ys, λ p. subst (λ z. list_beq xs z ≡ true) p (list_beq_refl xs));
  }

module _ {ℓ} {A : Type ℓ} ⦃a : Eq A⦄ where
  abbrev pub option_beq : Option A → Option A → Bool
  option_beq none none = true
  option_beq (some x) (some y) = a.beq x y
  option_beq _ _ = false

  pub option_beq_iff : (x y : Option A) → (option_beq x y ≡ true) ↔ (x ≡ y)
  option_beq_iff none none = (λ h. refl, λ h. refl)
  option_beq_iff none (some y) = (λ h. ground arith, λ h. ground arith)
  option_beq_iff (some x) none = (λ h. ground arith, λ h. ground arith)
  option_beq_iff (some x) (some y) =
      (λ h. ground (arith, a.beq_iff x y), λ h. ground (arith, a.beq_iff x y))

  instance abbrev pub option_eq : Eq (Option A)
  option_eq = record { beq = option_beq; beq_iff = option_beq_iff }
