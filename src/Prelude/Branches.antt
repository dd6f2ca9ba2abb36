-- ===== src/Prelude/Branches.antt =====
-- A property of both branches is one of the conditional.
use mathlib.Core.Bool.{Bool, true, false}
use mathlib.Core.Option.{Option, none, some}
use formula1_app.Prelude.Tests.{if◌then◌else◌}

module _ {X : Type 0} (R : X → Type 0) where
  pub if_both : (c : Bool) {x y : X} → R x → R y → R (if c then x else y)
  if_both true p q = p
  if_both false p q = q

  pub option_both :
      {A : Type 0} (o : Option A) {x : X} {f : A → X}
      → R x
      → ((a : A) → R (f a))
      → R (elim o [ none ↦ x | some a ↦ f a ])
  option_both none p q = p
  option_both (some a) p q = q a
