-- ===== src/Action.antt =====
-- Methods that change an object and may raise: what an exception leaves changed stays changed.
use formula1_app.Prelude.{Bool, true, false}
use formula1_app.Result.{Result, ok, raise}

abbrev pub Action : Type 0 → Type 0 → Type 0
Action S A = S → Result A × S

abbrev pub continue : {S A B : Type 0} → Result A × S → (A → Action S B) → Result B × S
continue (ok a, s) f = f a s
continue (raise x, s) f = (raise x, s)

infixl 5 ◌>>=◌ ◌>>◌
abbrev pub ◌>>=◌ : {S A B : Type 0} → Action S A → (A → Action S B) → Action S B
(m >>= f) s = continue (m s) f

abbrev pub ◌>>◌ : {S B : Type 0} → Action S (Unit {0}) → Action S B → Action S B
m >> k = m >>= λ _. k

abbrev pub skip : {S : Type 0} → Action S (Unit {0})
skip s = (ok tt, s)

abbrev pub lift : {S A : Type 0} → Result A → Action S A
lift r s = (r, s)

-- A statement that changes the object and cannot raise.
abbrev pub modify : {S : Type 0} → (S → S) → Action S (Unit {0})
modify f s = (ok tt, f s)

abbrev pub when : {S : Type 0} → Bool → Action S (Unit {0}) → Action S (Unit {0})
when true m = m
when false m = skip
