-- ===== src/Bounded/Recency.antt =====
-- The bound never drops a fresh entry: what was written last outlives `max_size - 1` further
-- writes, whatever their keys.
use formula1_app.Prelude.{
  ℕ, suc, ◌+◌, ◌≤◌, ◌<◌, ◌≡◌, refl, true, false, [], ◌∷◌, ◌++◌, arith, length, length-append,
  if◌then◌else◌,
}
use formula1_app.Prelude.Eq.{Eq, ◌=?◌}
use formula1_app.Dict
use formula1_app.Dict.{Dict}
use formula1_app.Dict.Laws.{contains-append, contains-remove}
use formula1_app.Bounded.{BoundedDict, has, set_item, IsValid}
use formula1_app.Bounded.Laws.{Write, hit, evict, room, Write-cases, gone, set_item-IsValid}

module _ {ℓ} {K V : Type ℓ} ⦃e : Eq K⦄ where
  -- How many entries are newer than the one at `k`.
  unfoldable pub newer_than : K → Dict K V → ℕ
  newer_than k [] = 0
  newer_than k ((j, v) ∷ d) = if k =? j then length d else newer_than k d

  -- The writes of a sequence, in order.
  unfoldable pub write_all : BoundedDict K V → Dict K V → BoundedDict K V
  write_all d [] = d
  write_all d ((j, w) ∷ ws) = write_all (set_item d j w) ws

  newer_than-append :
      (k : K) (d c : Dict K V)
      → newer_than k (d ++ c)
        ≡ (if Dict.contains k d then newer_than k d + length c else newer_than k c)
  unfolding newer_than Dict.contains
  newer_than-append k [] c = refl
  newer_than-append k ((i, w) ∷ d) c = ground (arith, newer_than-append k d c, length-append d c)

  newer_than-remove :
      (k j : K) (d : Dict K V) → (k =? j) ≡ false → newer_than k (Dict.remove j d) ≤ newer_than k d
  unfolding newer_than Dict.remove
  newer_than-remove k j [] h = omega arith
  newer_than-remove k j ((i, w) ∷ d) h =
      ground
        (arith, newer_than-remove k j d, e.beq_iff k i, e.beq_iff j i, e.beq_iff k j, shorter j d)
    where
      shorter : (j : K) (d : Dict K V) → length (Dict.remove j d) ≤ length d
      shorter j [] = omega arith
      shorter j ((i, w) ∷ d) = ground (arith, shorter j d)

  -- An entry that is not the oldest of a full dictionary stays when the oldest goes.
  outlives_oldest :
      (k i : K) (u : V) (rest : Dict K V) (n : ℕ)
      → Dict.contains k ((i, u) ∷ rest) ≡ true
      → newer_than k ((i, u) ∷ rest) ≤ n
      → n < length rest
      → (Dict.contains k rest ≡ true) × (newer_than k rest ≤ n)
  unfolding newer_than Dict.contains
  outlives_oldest k i u rest n h y fits = ground arith

  -- `k` is there, and at most `n` entries are newer.
  abbrev Young : BoundedDict K V → K → ℕ → Type 0
  Young d k n = (has d k ≡ true) × (newer_than k d.entries ≤ n)

  -- One write ages an entry by one at most, and keeps it while it is young.
  Write-Young :
      (d : BoundedDict K V) (k j : K) (w : V) (n : ℕ)
      → IsValid d
      → Young d k n
      → suc n < d.max_size
      → Write d j w
      → Young (set_item d j w) k (suc n)
  unfolding has newer_than Dict.contains
  Write-Young d k j w n h y fits (hit p q) =
      let rest = Dict.remove j d.entries in
      rw q (
        ground (
          arith,
          e.beq_iff k j,
          contains-append k rest ((j, w) ∷ []),
          newer_than-append k rest ((j, w) ∷ []),
          contains-remove k j d.entries h.distinct,
          newer_than-remove k j d.entries,
        ))
  Write-Young d k j w n h y fits (evict i u rest p full q r) =
      let size : d.max_size ≤ length ((i, u) ∷ rest) = rw q at full in
      let old = outlives_oldest k i u rest n (rw q at (y.0)) (rw q at (y.1)) (omega arith) in
      rw r (
        ground (
          arith,
          old.0,
          old.1,
          contains-append k rest ((j, w) ∷ []),
          newer_than-append k rest ((j, w) ∷ []),
        ))
  Write-Young d k j w n h y fits (room p free q) = rw q (
      ground (
        arith,
        contains-append k d.entries ((j, w) ∷ []),
        newer_than-append k d.entries ((j, w) ∷ []),
      ))

  Write-max_size :
      (d : BoundedDict K V) (j : K) (w : V) → Write d j w → (set_item d j w).max_size ≡ d.max_size
  Write-max_size d j w (hit p q) = rw q
  Write-max_size d j w (evict i u rest p full q r) = rw r
  Write-max_size d j w (room p free q) = rw q

  -- A write keeps the bound itself.
  pub max_size-set_item :
      (d : BoundedDict K V) (j : K) (w : V)
      → 0 < d.max_size
      → (set_item d j w).max_size ≡ d.max_size
  max_size-set_item d j w h = Write-max_size d j w (Write-cases d j w h)

  write_all-Young :
      (d : BoundedDict K V) (k : K) (n : ℕ) (ws : Dict K V)
      → IsValid d
      → Young d k n
      → n + length ws < d.max_size
      → has (write_all d ws) k ≡ true
  unfolding write_all
  write_all-Young d k n [] h y fits = y.0
  write_all-Young d k n ((j, w) ∷ ws) h y fits =
      write_all-Young (set_item d j w) k (suc n) ws (set_item-IsValid d j w h)
        (Write-Young d k j w n h y (omega arith) (Write-cases d j w h.positive))
        (omega (arith, max_size-set_item d j w h.positive))

  Write-fresh :
      (d : BoundedDict K V) (k : K) (v : V) → IsValid d → Write d k v → Young (set_item d k v) k 0
  unfolding has newer_than Dict.contains
  Write-fresh d k v h (hit p q) =
      let rest = Dict.remove k d.entries in
      rw q (
        ground (
          arith,
          e.beq_iff k k,
          gone k d.entries h.distinct,
          contains-append k rest ((k, v) ∷ []),
          newer_than-append k rest ((k, v) ∷ []),
        ))
  Write-fresh d k v h (evict i u rest p full q r) =
      let unseen : Dict.contains k ((i, u) ∷ rest) ≡ false = rw q at p in
      rw r (
        ground (
          arith,
          e.beq_iff k k,
          contains-append k rest ((k, v) ∷ []),
          newer_than-append k rest ((k, v) ∷ []),
        ))
  Write-fresh d k v h (room p free q) = rw q (
      ground (
        arith,
        e.beq_iff k k,
        contains-append k d.entries ((k, v) ∷ []),
        newer_than-append k d.entries ((k, v) ∷ []),
      ))

  -- An entry just written to a valid bounded dictionary is still there after any further writes
  -- that are fewer than its maximum size.
  pub write_all-set_item :
      (d : BoundedDict K V) (k : K) (v : V) (ws : Dict K V)
      → IsValid d
      → length ws < d.max_size
      → has (write_all (set_item d k v) ws) k ≡ true
  write_all-set_item d k v ws h fits =
      write_all-Young (set_item d k v) k 0 ws (set_item-IsValid d k v h)
        (Write-fresh d k v h (Write-cases d k v h.positive))
        (omega (arith, max_size-set_item d k v h.positive))
