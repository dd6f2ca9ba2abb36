-- ===== src/Bounded/Pairs.antt =====
-- Two bounded dictionaries that are written together hold the same keys in the same order.
use mathlib.Core.Path.{subst}
use formula1_app.Prelude.{
  suc, ◌≡◌, refl, ap, Option, none, some, [], ◌∷◌, ◌++◌, arith, length, leb, Bool-cases, inl, inr,
}
use formula1_app.Prelude.Eq.{Eq, ◌=?◌}
use formula1_app.Dict
use formula1_app.Dict.{Dict}
use formula1_app.Bounded.{BoundedDict, popitem, set_item?, set_item}

module _ {K V W : Type 0} ⦃e : Eq K⦄ (R : V → W → Type 0) where
  -- The same keys, and related values.
  abbrev pub Paired : Dict K V → Dict K W → Type 0
  Paired [] [] = Unit
  Paired [] (_ ∷ _) = ⊥
  Paired (_ ∷ _) [] = ⊥
  Paired ((k, v) ∷ xs) ((j, w) ∷ ys) = (k ≡ j) × R v w × Paired xs ys

  -- Two dictionaries of the same size that have been written together.
  abbrev pub Synced : BoundedDict K V → BoundedDict K W → Type 0
  Synced c d = (c.max_size ≡ d.max_size) × Paired c.entries d.entries

  contains-Paired :
      (k : K) (xs : Dict K V) (ys : Dict K W)
      → Paired xs ys
      → Dict.contains k xs ≡ Dict.contains k ys
  unfolding Dict.contains
  contains-Paired k [] [] h = refl
  contains-Paired k [] (y ∷ ys) h = absurd h
  contains-Paired k (x ∷ xs) [] h = absurd h
  contains-Paired k ((i, v) ∷ xs) ((j, w) ∷ ys) (p, r, h) = rw (p, contains-Paired k xs ys h) refl

  length-Paired : (xs : Dict K V) (ys : Dict K W) → Paired xs ys → length xs ≡ length ys
  length-Paired [] [] h = refl
  length-Paired [] (y ∷ ys) h = absurd h
  length-Paired (x ∷ xs) [] h = absurd h
  length-Paired ((i, v) ∷ xs) ((j, w) ∷ ys) (p, r, h) = ap suc (length-Paired xs ys h)

  remove-Paired :
      (k : K) (xs : Dict K V) (ys : Dict K W)
      → Paired xs ys
      → Paired (Dict.remove k xs) (Dict.remove k ys)
  unfolding Dict.remove
  remove-Paired k [] [] h = tt
  remove-Paired k [] (y ∷ ys) h = absurd h
  remove-Paired k (x ∷ xs) [] h = absurd h
  remove-Paired k ((i, v) ∷ xs) ((j, w) ∷ ys) (p, r, h) = elim (Bool-cases (k =? j)) [
    | inl y ↦ rw (p, y) h
    | inr n ↦ rw (p, n) (refl, r, remove-Paired k xs ys h)
  ]

  append-Paired :
      (k : K) (v : V) (w : W) (xs : Dict K V) (ys : Dict K W)
      → Paired xs ys
      → R v w
      → Paired (xs ++ (k, v) ∷ []) (ys ++ (k, w) ∷ [])
  append-Paired k v w [] [] h r = (refl, r, tt)
  append-Paired k v w [] (y ∷ ys) h r = absurd h
  append-Paired k v w (x ∷ xs) [] h r = absurd h
  append-Paired k v w ((i, a) ∷ xs) ((j, b) ∷ ys) (p, q, h) r =
      (p, q, append-Paired k v w xs ys h r)

  -- The values found under one key are related.
  pub lookup-Paired :
      (k : K) (v : V) (xs : Dict K V) (ys : Dict K W)
      → Paired xs ys
      → Dict.lookup k xs ≡ some v
      → (w : W) × (Dict.lookup k ys ≡ some w) × R v w
  unfolding Dict.lookup
  lookup-Paired k v [] [] h f = ground arith
  lookup-Paired k v [] (y ∷ ys) h f = absurd h
  lookup-Paired k v (x ∷ xs) [] h f = absurd h
  lookup-Paired k v ((i, a) ∷ xs) ((j, b) ∷ ys) (p, q, h) f = elim (Bool-cases (k =? j)) [
    | inl y ↦ (
      b,
      rw y refl,
      subst (λ z. R z b) (ap (λ o. elim o as (λ _. V) [ none ↦ a | some z ↦ z ]) (rw (p, y) at f))
          q,
    )
    | inr n ↦ rw n (lookup-Paired k v xs ys h (rw (p, n) at f))
  ]

  BothSome : Option (BoundedDict K V) → Option (BoundedDict K W) → Type 0
  BothSome none none = Unit
  BothSome none (some _) = ⊥
  BothSome (some _) none = ⊥
  BothSome (some c) (some d) = Synced c d

  popped-BothSome :
      (c : BoundedDict K V) (d : BoundedDict K W) (xs : Dict K V) (ys : Dict K W) (k : K) (v : V)
      (w : W)
      → c.max_size ≡ d.max_size
      → Paired xs ys
      → R v w
      → BothSome
          (elim (popitem xs) [
            | none ↦ none
            | some rest ↦ some (record c { entries = rest ++ (k, v) ∷ [] })
          ])
          (elim (popitem ys) [
            | none ↦ none
            | some rest ↦ some (record d { entries = rest ++ (k, w) ∷ [] })
          ])
  unfolding popitem BothSome
  popped-BothSome c d [] [] k v w m h r = tt
  popped-BothSome c d [] (y ∷ ys) k v w m h r = absurd h
  popped-BothSome c d (x ∷ xs) [] k v w m h r = absurd h
  popped-BothSome c d ((i, a) ∷ xs) ((j, b) ∷ ys) k v w m (p, q, h) r =
      (m, append-Paired k v w xs ys h r)

  set_item?-BothSome :
      (c : BoundedDict K V) (d : BoundedDict K W) (k : K) (v : V) (w : W)
      → Synced c d
      → R v w
      → BothSome (set_item? c k v) (set_item? d k w)
  unfolding set_item? BothSome
  set_item?-BothSome c d k v w (m, h) r =
      rw (contains-Paired k c.entries d.entries h, m, length-Paired c.entries d.entries h)
        (elim (Bool-cases (Dict.contains k d.entries)) [
          | inl y ↦ rw y (
            refl,
            append-Paired k v w (Dict.remove k c.entries) (Dict.remove k d.entries)
                (remove-Paired k c.entries d.entries h) r,
          )
          | inr n ↦ elim (Bool-cases (leb d.max_size (length d.entries))) [
            | inl y ↦ rw (n, y) (popped-BothSome c d c.entries d.entries k v w m h r)
            | inr z ↦ rw (n, z) (refl, append-Paired k v w c.entries d.entries h r)
          ]
        ])

  or_Synced :
      (c : BoundedDict K V) (d : BoundedDict K W) (o : Option (BoundedDict K V))
      (o' : Option (BoundedDict K W))
      → Synced c d
      → BothSome o o'
      → Synced
          (elim o as (λ _. BoundedDict K V) [ none ↦ c | some x ↦ x ])
          (elim o' as (λ _. BoundedDict K W) [ none ↦ d | some x ↦ x ])
  unfolding BothSome
  or_Synced c d none none h r = h
  or_Synced c d none (some _) h r = absurd r
  or_Synced c d (some _) none h r = absurd r
  or_Synced c d (some x) (some y) h r = r

  -- Writes of related values at one key keep two dictionaries together.
  pub set_item-Synced :
      (c : BoundedDict K V) (d : BoundedDict K W) (k : K) (v : V) (w : W)
      → Synced c d
      → R v w
      → Synced (set_item c k v) (set_item d k w)
  unfolding set_item
  set_item-Synced c d k v w h r =
      or_Synced c d (set_item? c k v) (set_item? d k w) h (set_item?-BothSome c d k v w h r)
