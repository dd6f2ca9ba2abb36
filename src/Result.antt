-- ===== src/Result.antt =====
-- Python's exceptions as values, for code that changes no object.
use formula1_app.Prelude.{◌≡◌, refl, List, [], ◌∷◌, All}

pub data Error : Type 0 where
  struct_error index_error type_error value_error attribute_error unicode_error stop_iteration :
      Error
  -- PacketValidationError
  packet_error : Error

pub data Result {ℓ} (A : Type ℓ) : Type ℓ where
  ok : A → Result A
  raise : Error → Result A

infixl 5 ◌>>=◌
abbrev pub ◌>>=◌ {ℓ κ} : {A : Type ℓ} {B : Type κ} → Result A → (A → Result B) → Result B
raise x >>= k = raise x
ok a >>= k = k a

-- A comprehension or loop whose body may raise.
unfoldable pub traverse {ℓ κ} :
    {A : Type ℓ} {B : Type κ} → (A → Result B) → List A → Result (List B)
traverse f [] = ok []
traverse f (x ∷ xs) = do y ← f x; ys ← traverse f xs; ok (y ∷ ys)

-- A property of what is returned, if anything is.
abbrev pub Holds {ℓ κ} : {A : Type ℓ} → (A → Type κ) → Result A → Type κ
Holds P (ok a) = P a
Holds P (raise x) = Unit

pub Holds-bind {ℓ κ μ ν} :
    {A : Type ℓ} {B : Type κ} (P : A → Type μ) (Q : B → Type ν) (m : Result A) (f : A → Result B)
    → Holds P m
    → ((a : A) → P a → Holds Q (f a))
    → Holds Q (m >>= f)
Holds-bind P Q (ok a) f p q = q a p
Holds-bind P Q (raise x) f p q = tt

pub Holds-any {ℓ} : {A : Type ℓ} (m : Result A) → Holds (λ _. Unit {0}) m
Holds-any (ok a) = tt
Holds-any (raise x) = tt

pub Holds-traverse {ℓ κ μ} :
    {A : Type ℓ} {B : Type κ} (P : B → Type μ) (f : A → Result B) (xs : List A)
    → ((x : A) → Holds P (f x))
    → Holds (All P) (traverse f xs)
unfolding traverse
Holds-traverse P f [] h = tt
Holds-traverse P f (x ∷ xs) h =
    Holds-bind P (All P) (f x) (λ y. traverse f xs >>= λ ys. ok (y ∷ ys)) (h x)
      (λ y p.
        Holds-bind (All P) (All P) (traverse f xs) (λ ys. ok (y ∷ ys)) (Holds-traverse P f xs h)
          (λ ys q. (p, q)))

pub bind_cong {ℓ κ} :
    {A : Type ℓ} {B : Type κ} (m : Result A) (f g : A → Result B)
    → ((a : A) → f a ≡ g a)
    → (m >>= f) ≡ (m >>= g)
bind_cong (ok a) f g h = h a
bind_cong (raise x) f g h = refl
