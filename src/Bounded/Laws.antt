-- ===== src/Bounded/Laws.antt =====
-- What the bounded dictionary promises: its size, the entry that a write drops, and lookups.
use formula1_app.Prelude.{
  ◌≤◌, ◌<◌, ◌≡◌, ◌⊎◌, refl, ap, Bool, true, false, Option, none, some, [], ◌∷◌, ◌++◌, arith, length,
  length-append, leb, if◌then◌else◌, Bool-cases, inl, inr,
}
use formula1_app.Prelude.Eq.{Eq, ◌=?◌}
use formula1_app.Dict
use formula1_app.Dict.{Dict}
use formula1_app.Dict.Laws.{
  lookup-append, lookup-absent, lookup-present, lookup-alter, length-alter, contains-alter,
  alter-Distinct, contains-remove, lookup-remove, remove-Distinct, length-remove, length-remove-le,
  snoc-Distinct,
}
use formula1_app.Bounded.{
  BoundedDict, BoundedSet, add, get, has, set_item?, set_item, alter, pop, IsValid,
}

module _ {ℓ} {K V : Type ℓ} where
  abbrev pub oldest : Dict K V → Option K
  oldest [] = none
  oldest ((j, _) ∷ _) = some j

  -- The rest of a dictionary that is not empty.
  abbrev pub newer : Dict K V → Dict K V
  newer [] = []
  newer (_ ∷ d) = d

module _ {ℓ} {K V : Type ℓ} ⦃e : Eq K⦄ where
  -- The entry that a write of `k` drops: the oldest, if `k` is new and the dictionary is full.
  unfoldable pub victim : BoundedDict K V → K → Option K
  victim d k =
      if has d k then none else if leb d.max_size (length d.entries) then oldest d.entries else none

  -- `j` is the key that the write of `k` drops.
  abbrev pub drops : BoundedDict K V → K → K → Bool
  drops d k j = elim (victim d k) [ none ↦ false | some i ↦ j =? i ]

  pub victim_of_has : (d : BoundedDict K V) (k : K) → has d k ≡ true → victim d k ≡ none
  unfolding victim
  victim_of_has d k h = ground arith

  pub has_of_get : (d : BoundedDict K V) (k : K) (v : V) → get d k ≡ some v → has d k ≡ true
  unfolding get has
  has_of_get d k v h = lookup-present k d.entries v h

  -- With a positive maximum size a write to a bounded dictionary never raises.
  pub set_item?-eq-some :
      (d : BoundedDict K V) (k : K) (v : V)
      → 0 < d.max_size
      → set_item? d k v ≡ some (set_item d k v)
  unfolding set_item
  set_item?-eq-some d k v h = ground arith

  contains_tail :
      (k i : K) (w : V) (d : Dict K V)
      → Dict.contains k ((i, w) ∷ d) ≡ false
      → Dict.contains k d ≡ false
  unfolding Dict.contains
  contains_tail k i w d h = ground arith

  -- The three things that a write does, each with the entries that it leaves.
  pub data Write (d : BoundedDict K V) (k : K) (v : V) : Type ℓ where
    hit :
        Dict.contains k d.entries ≡ true
        → set_item d k v ≡ record d { entries = Dict.remove k d.entries ++ (k, v) ∷ [] }
        → Write d k v
    evict :
        (j : K) (w : V) (rest : Dict K V)
        → Dict.contains k d.entries ≡ false
        → d.max_size ≤ length d.entries
        → d.entries ≡ (j, w) ∷ rest
        → set_item d k v ≡ record d { entries = rest ++ (k, v) ∷ [] }
        → Write d k v
    room :
        Dict.contains k d.entries ≡ false
        → length d.entries < d.max_size
        → set_item d k v ≡ record d { entries = d.entries ++ (k, v) ∷ [] }
        → Write d k v

  Write-full :
      (d : BoundedDict K V) (k : K) (v : V) (l : Dict K V)
      → 0 < d.max_size
      → d.entries ≡ l
      → Dict.contains k d.entries ≡ false
      → d.max_size ≤ length d.entries
      → Write d k v
  unfolding set_item
  Write-full d k v [] h q miss full = absurd (omega (arith, ap (λ (x : Dict K V). length x) q))
  Write-full d k v ((j, w) ∷ rest) h q miss full = evict j w rest miss full q (ground arith)

  pub Write-cases : (d : BoundedDict K V) (k : K) (v : V) → 0 < d.max_size → Write d k v
  unfolding set_item
  Write-cases d k v h = elim (Bool-cases (Dict.contains k d.entries)) [
    | inl yes_ ↦ hit yes_ (ground arith)
    | inr no_ ↦ elim (Bool-cases (leb d.max_size (length d.entries))) [
      | inl full ↦ Write-full d k v d.entries h refl no_ (ground arith)
      | inr free ↦ room no_ (ground arith) (ground arith)
    ]
  ]

  -- After `remove` the key is gone.
  pub gone : (k : K) (d : Dict K V) → Dict.Distinct d → Dict.contains k (Dict.remove k d) ≡ false
  gone k d h = ground (arith, contains-remove k k d, e.beq_iff k k)

  get-Write :
      (d : BoundedDict K V) (j k : K) (v : V)
      → IsValid d
      → Write d k v
      → get (set_item d k v) j ≡ (if j =? k then some v else if drops d k j then none else get d j)
  unfolding get victim has Dict.lookup Dict.contains
  get-Write d j k v h (hit p q) = rw q (
      ground (
        arith,
        e.beq_iff j k,
        gone k d.entries h.distinct,
        lookup-append j (Dict.remove k d.entries) ((k, v) ∷ []),
        lookup-absent j (Dict.remove k d.entries),
        lookup-remove j k d.entries h.distinct,
      ))
  get-Write d j k v h (evict i w rest p full q r) =
      let unique : Dict.Distinct ((i, w) ∷ rest) = rw q at h.distinct in
      rw r (
        ground (
          arith,
          e.beq_iff j k,
          e.beq_iff j i,
          q,
          p,
          lookup-append j rest ((k, v) ∷ []),
          lookup-absent j rest,
        ))
  get-Write d j k v h (room p free q) = rw q (
      ground
        (arith, e.beq_iff j k, lookup-append j d.entries ((k, v) ∷ []), lookup-absent j d.entries))

  -- After a write to a valid bounded dictionary a lookup finds the value at the key, nothing at the
  -- key that the write dropped, and what was there at every other key.
  pub get-set_item :
      (d : BoundedDict K V) (j k : K) (v : V)
      → IsValid d
      → get (set_item d k v) j ≡ (if j =? k then some v else if drops d k j then none else get d j)
  get-set_item d j k v h = get-Write d j k v h (Write-cases d k v h.positive)

  Write-IsValid :
      (d : BoundedDict K V) (k : K) (v : V) → IsValid d → Write d k v → IsValid (set_item d k v)
  Write-IsValid d k v h (hit p q) = rw q (record {
    positive = h.positive;
    bounded =
        omega (
          arith,
          length-remove k d.entries p,
          length-append (Dict.remove k d.entries) ((k, v) ∷ []),
        );
    distinct =
        snoc-Distinct k v (Dict.remove k d.entries) (remove-Distinct k d.entries h.distinct)
          (gone k d.entries h.distinct);
  })
  Write-IsValid d k v h (evict i w rest p full q r) =
      let unique : Dict.Distinct ((i, w) ∷ rest) = rw q at h.distinct in
      let size : length ((i, w) ∷ rest) ≤ d.max_size = rw q at h.bounded in
      rw r (record {
        positive = h.positive;
        bounded = omega (arith, length-append rest ((k, v) ∷ []));
        distinct = snoc-Distinct k v rest unique.1 (contains_tail k i w rest (rw q at p));
      })
  Write-IsValid d k v h (room p free q) = rw q (record {
    positive = h.positive;
    bounded = omega (arith, length-append d.entries ((k, v) ∷ []));
    distinct = snoc-Distinct k v d.entries h.distinct p;
  })

  -- A write keeps a bounded dictionary's size bound and its keys distinct.
  pub set_item-IsValid :
      (d : BoundedDict K V) (k : K) (v : V) → IsValid d → IsValid (set_item d k v)
  set_item-IsValid d k v h = Write-IsValid d k v h (Write-cases d k v h.positive)

  pub pop-IsValid : (d : BoundedDict K V) (k : K) → IsValid d → IsValid (pop d k)
  unfolding pop
  pop-IsValid d k h = record {
    positive = h.positive;
    bounded = omega (arith, length-remove-le k d.entries, h.bounded);
    distinct = remove-Distinct k d.entries h.distinct;
  }

  pub alter-IsValid : (d : BoundedDict K V) (k : K) (v : V) → IsValid d → IsValid (alter d k v)
  unfolding alter
  alter-IsValid d k v h = record {
    positive = h.positive;
    bounded = omega (arith, length-alter k v d.entries, h.bounded);
    distinct = alter-Distinct k v d.entries h.distinct;
  }

  pub get-pop :
      (d : BoundedDict K V) (j k : K)
      → IsValid d
      → get (pop d k) j ≡ (if j =? k then none else get d j)
  unfolding get pop
  get-pop d j k h = lookup-remove j k d.entries h.distinct

  pub get-alter :
      (d : BoundedDict K V) (j k : K) (v : V)
      → get (alter d k v) j ≡ (if j =? k then (if has d k then some v else none) else get d j)
  unfolding get alter has
  get-alter d j k v = lookup-alter j k v d.entries

  -- A write of `k` drops nothing: it is there, or there is room.
  abbrev pub Room : BoundedDict K V → K → Type 0
  Room d k = (has d k ≡ true) ⊎ (length d.entries < d.max_size)

  pub drops_of_Room : (d : BoundedDict K V) (k j : K) → Room d k → drops d k j ≡ false
  unfolding victim
  drops_of_Room d k j (inl h) = ground arith
  drops_of_Room d k j (inr h) = ground arith

  pub alter-Room : (d : BoundedDict K V) (k : K) (v : V) → Room d k → Room (alter d k v) k
  unfolding alter has
  alter-Room d k v (inl h) = inl (ground (arith, contains-alter k k v d.entries))
  alter-Room d k v (inr h) = inr (omega (arith, length-alter k v d.entries))

  pub pop-Room : (d : BoundedDict K V) (k : K) → IsValid d → Room d k → Room (pop d k) k
  unfolding pop has
  pop-Room d k v (inl h) = inr (omega (arith, length-remove k d.entries h, v.bounded))
  pop-Room d k v (inr h) = inr (omega (arith, length-remove-le k d.entries))

  pub has-set_item_self :
      (d : BoundedDict K V) (k : K) (v : V) → IsValid d → has (set_item d k v) k ≡ true
  has-set_item_self d k v h =
      has_of_get (set_item d k v) k v (ground (arith, get-set_item d k k v h, e.beq_iff k k))

pub has-add_self :
    {K : Type 0} ⦃e : Eq K⦄ (s : BoundedSet K) (k : K) → IsValid s → has (add s k) k ≡ true
unfolding add
has-add_self s k h = has-set_item_self s k tt h
