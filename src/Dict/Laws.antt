-- ===== src/Dict/Laws.antt =====
-- The laws of the dictionary operations.
use formula1_app.Prelude.{
  suc, ◌≤◌, ◌≡◌, refl, true, false, ◌||◌, none, some, [], ◌∷◌, ◌++◌, arith, length, if◌then◌else◌,
}
use formula1_app.Prelude.Eq.{Eq, ◌=?◌}
use formula1_app.Dict.{Dict, lookup, contains, put, alter, remove, Distinct}

module _ {ℓ κ} {K : Type ℓ} {V : Type κ} ⦃e : Eq K⦄ where
  pub lookup-put :
      (j k : K) (v : V) (d : Dict K V)
      → lookup j (put k v d) ≡ (if j =? k then some v else lookup j d)
  unfolding lookup put
  lookup-put j k v [] = refl
  lookup-put j k v ((i, w) ∷ d) =
      ground (arith, e.beq_iff j k, e.beq_iff k i, e.beq_iff j i, lookup-put j k v d)

  pub lookup-append :
      (k : K) (d c : Dict K V)
      → lookup k (d ++ c) ≡ (if contains k d then lookup k d else lookup k c)
  unfolding lookup contains
  lookup-append k [] c = refl
  lookup-append k ((i, w) ∷ d) c = ground (arith, lookup-append k d c)

  pub lookup-absent : (k : K) (d : Dict K V) → contains k d ≡ false → lookup k d ≡ none
  unfolding lookup contains
  lookup-absent k [] h = refl
  lookup-absent k ((i, w) ∷ d) h = ground (arith, lookup-absent k d)

  pub lookup-present : (k : K) (d : Dict K V) (v : V) → lookup k d ≡ some v → contains k d ≡ true
  unfolding lookup contains
  lookup-present k [] v h = ground arith
  lookup-present k ((i, w) ∷ d) v h = ground (arith, lookup-present k d v)

  pub lookup-alter :
      (j k : K) (v : V) (d : Dict K V)
      → lookup j (alter k v d)
        ≡ (if j =? k then (if contains k d then some v else none) else lookup j d)
  unfolding lookup contains alter
  lookup-alter j k v [] = ground arith
  lookup-alter j k v ((i, w) ∷ d) =
      ground (arith, e.beq_iff j k, e.beq_iff k i, e.beq_iff j i, lookup-alter j k v d)

  pub contains-alter : (j k : K) (v : V) (d : Dict K V) → contains j (alter k v d) ≡ contains j d
  unfolding contains alter
  contains-alter j k v [] = refl
  contains-alter j k v ((i, w) ∷ d) = ground (arith, contains-alter j k v d)

  pub length-alter : (k : K) (v : V) (d : Dict K V) → length (alter k v d) ≡ length d
  unfolding alter
  length-alter k v [] = refl
  length-alter k v ((i, w) ∷ d) = ground (arith, length-alter k v d)

  pub alter-Distinct : (k : K) (v : V) (d : Dict K V) → Distinct d → Distinct (alter k v d)
  unfolding alter
  alter-Distinct k v [] h = h
  alter-Distinct k v ((i, w) ∷ d) h = ground (arith, contains-alter i k v d, alter-Distinct k v d)

  pub contains-remove :
      (j k : K) (d : Dict K V)
      → Distinct d
      → contains j (remove k d) ≡ (if j =? k then false else contains j d)
  unfolding contains remove
  contains-remove j k [] h = ground arith
  contains-remove j k ((i, w) ∷ d) h =
      ground (arith, e.beq_iff j k, e.beq_iff k i, e.beq_iff j i, contains-remove j k d)

  pub lookup-remove :
      (j k : K) (d : Dict K V)
      → Distinct d
      → lookup j (remove k d) ≡ (if j =? k then none else lookup j d)
  unfolding lookup remove
  lookup-remove j k [] h = ground arith
  lookup-remove j k ((i, w) ∷ d) h =
      ground
        (arith, e.beq_iff j k, e.beq_iff k i, e.beq_iff j i, lookup-remove j k d, lookup-absent j d)

  pub remove-Distinct : (k : K) (d : Dict K V) → Distinct d → Distinct (remove k d)
  unfolding remove
  remove-Distinct k [] h = h
  remove-Distinct k ((i, w) ∷ d) h = ground (arith, contains-remove i k d, remove-Distinct k d)

  pub length-remove :
      (k : K) (d : Dict K V) → contains k d ≡ true → suc (length (remove k d)) ≡ length d
  unfolding contains remove
  length-remove k [] h = ground arith
  length-remove k ((i, w) ∷ d) h = ground (arith, length-remove k d)

  pub length-remove-le : (k : K) (d : Dict K V) → length (remove k d) ≤ length d
  unfolding remove
  length-remove-le k [] = omega arith
  length-remove-le k ((i, w) ∷ d) = ground (arith, length-remove-le k d)

  pub contains-append :
      (k : K) (d c : Dict K V) → contains k (d ++ c) ≡ (contains k d || contains k c)
  unfolding contains
  contains-append k [] c = refl
  contains-append k ((i, w) ∷ d) c = ground (arith, contains-append k d c)

  pub snoc-Distinct :
      (k : K) (v : V) (d : Dict K V)
      → Distinct d
      → contains k d ≡ false
      → Distinct (d ++ (k, v) ∷ [])
  unfolding contains
  snoc-Distinct k v [] h a = ground arith
  snoc-Distinct k v ((i, w) ∷ d) h a =
      ground (
        arith,
        e.beq_iff k i,
        e.beq_iff i k,
        contains-append i d ((k, v) ∷ []),
        snoc-Distinct k v d,
      )

  pub contains-put :
      (j k : K) (v : V) (d : Dict K V) → contains j (put k v d) ≡ (j =? k || contains j d)
  unfolding contains put
  contains-put j k v [] = ground arith
  contains-put j k v ((i, w) ∷ d) =
      ground (arith, e.beq_iff j k, e.beq_iff k i, e.beq_iff j i, contains-put j k v d)

  pub put-Distinct : (k : K) (v : V) (d : Dict K V) → Distinct d → Distinct (put k v d)
  unfolding contains put
  put-Distinct k v [] h = ground arith
  put-Distinct k v ((i, w) ∷ d) h =
      ground (arith, e.beq_iff i k, e.beq_iff k i, contains-put i k v d, put-Distinct k v d)
