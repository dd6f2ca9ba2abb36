-- ===== src/Bounded/Entries.antt =====
-- What holds of every entry of a bounded dictionary.
use mathlib.Core.Path.{subst}
use formula1_app.Prelude.{
  ◌≡◌, Option, none, some, [], ◌∷◌, ◌++◌, arith, All, All-append, length, leb, Bool-cases, inl, inr,
  if_both, ap, ◌∙◌, if◌then◌else◌, true,
}
use formula1_app.Prelude.Eq.{Eq, ◌=?◌, eq_of_=?, =?-refl}
use formula1_app.Dict
use formula1_app.Dict.{Dict}
use formula1_app.Bounded.{BoundedDict, popitem, set_item?, set_item, get, has, add, IsValid}
use formula1_app.Bounded.Laws.{get-set_item, has_of_get, drops}

module _ {K V : Type 0} ⦃e : Eq K⦄ (P : K × V → Type 0) where
  AllEntries-remove : (k : K) (d : Dict K V) → All P d → All P (Dict.remove k d)
  unfolding Dict.remove
  AllEntries-remove k [] h = tt
  AllEntries-remove k ((j, w) ∷ d) h = if_both (All P) (k =? j) h.1 (h.0, AllEntries-remove k d h.1)

  AllSome : Option (BoundedDict K V) → Type 0
  AllSome none = Unit
  AllSome (some d) = All P d.entries

  popped :
      (d : BoundedDict K V) (xs : Dict K V) (k : K) (v : V)
      → All P xs
      → P (k, v)
      → AllSome (elim (popitem xs) [
        | none ↦ none
        | some rest ↦ some (record d { entries = rest ++ (k, v) ∷ [] })
      ])
  unfolding popitem AllSome
  popped d [] k v h p = tt
  popped d (x ∷ xs) k v h p = All-append P xs ((k, v) ∷ []) h.1 (p, tt)

  AllSome-set_item? :
      (d : BoundedDict K V) (k : K) (v : V) → All P d.entries → P (k, v) → AllSome (set_item? d k v)
  unfolding set_item? AllSome
  AllSome-set_item? d k v h p =
      if_both AllSome (Dict.contains k d.entries)
        (All-append P (Dict.remove k d.entries) ((k, v) ∷ []) (AllEntries-remove k d.entries h)
          (p, tt))
        (if_both AllSome (leb d.max_size (length d.entries)) (popped d d.entries k v h p)
          (All-append P d.entries ((k, v) ∷ []) h (p, tt)))

  or_same :
      (d : BoundedDict K V) (o : Option (BoundedDict K V))
      → All P d.entries
      → AllSome o
      → All P (elim o as (λ _. BoundedDict K V) [ none ↦ d | some d' ↦ d' ]).entries
  unfolding AllSome
  or_same d none h k = h
  or_same d (some d') h k = k

  -- A write adds one entry, and the other entries were there.
  pub All-set_item :
      (d : BoundedDict K V) (k : K) (v : V)
      → All P d.entries
      → P (k, v)
      → All P (set_item d k v).entries
  unfolding set_item
  All-set_item d k v h p = or_same d (set_item? d k v) h (AllSome-set_item? d k v h p)

  pub All-lookup : (k : K) (v : V) (d : Dict K V) → All P d → Dict.lookup k d ≡ some v → P (k, v)
  unfolding Dict.lookup
  All-lookup k v [] h e = ground arith
  All-lookup k v ((j, w) ∷ d) h e = elim (Bool-cases (k =? j)) [
    | inl y ↦ subst P (ground (arith, eq_of_=? k j)) h.0
    | inr n ↦ All-lookup k v d h.1 (ground arith)
  ]

module _ {K V : Type 0} ⦃e : Eq K⦄ where
  -- What was just written is found.
  pub get-set_item_same :
      (d : BoundedDict K V) (k : K) (v : V) → IsValid d → get (set_item d k v) k ≡ some v
  get-set_item_same d k v h =
      get-set_item d k k v h
      ∙ ap (λ b. if b then some v else if drops d k k then none else get d k) (=?-refl k)

module _ {K : Type 0} ⦃e : Eq K⦄ where
  -- What was just added is there.
  pub has-add : (s : BoundedDict K (Unit {0})) (k : K) → IsValid s → has (add s k) k ≡ true
  unfolding add
  has-add s k v = has_of_get (set_item s k tt) k tt (get-set_item_same s k tt v)
