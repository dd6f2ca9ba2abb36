-- ===== src/Repositories/Base/Failures.antt =====
-- Repeats of a failure are logged as one line with their number:
-- listener/database/repositories/base.py.
use formula1_app.Prelude.{
  ℕ, suc, ◌+◌, ◌-◌, ◌<◌, ◌≤◌, ◌≡◌, refl, ap, ◌∙◌, Bool, false, none, some, List, [], ◌∷◌, ◌++◌,
  arith, All, length, ltb, lt→ltb,
}
use mathlib.Core.Path.{subst}
use formula1_app.Prelude.Eq.{=?-refl, nat_eq, pair_eq, option_eq}
use formula1_app.Bounded
use formula1_app.Bounded.{BoundedDict}
use formula1_app.Bounded.Laws.{get-alter, has_of_get, alter-IsValid, set_item-IsValid}
use formula1_app.Bounded.Entries.{get-set_item_same}
use formula1_app.Repositories.Base.{
  Key, Logged, Line, failure_line, summary_line, Repository, failure_summary_interval, log_again,
  log_write_failure,
}

ge→ltb : (a b : ℕ) → b ≤ a → ltb a b ≡ false
ge→ltb a b h = ground arith

module _ (batch : Bool) (key : Key) where
  -- Failures of one kind at some times, one after the other.
  unfoldable pub log_all : List ℕ → Repository → Repository
  log_all [] r = r
  log_all (now ∷ times) r = log_all times (log_write_failure batch key now r)

  -- What the repository knows of the failure.
  abbrev Counted : ℕ → ℕ → List Line → Repository → Type 0
  Counted n t ls r =
      (Bounded.get r.logged_failures key ≡ some (n, t))
      × (r.lines ≡ ls)
      × Bounded.IsValid r.logged_failures

  again :
      (logged : Logged) (now : ℕ) (r : Repository)
      → Bounded.get r.logged_failures key ≡ some logged
      → log_write_failure batch key now r ≡ log_again batch key now logged r
  unfolding log_write_failure
  again logged now r e = rw (e, log_write_failure) refl

  get-altered :
      (logged w : Logged) (d : BoundedDict Key Logged)
      → Bounded.get d key ≡ some logged
      → Bounded.get (Bounded.alter d key w) key ≡ some w
  get-altered logged w d e =
      get-alter d key key w ∙ rw (=?-refl key, has_of_get d key logged e) refl

  -- Within the interval a repeat is counted and not logged.
  suppressed_one :
      (n t now : ℕ) (ls : List Line) (r : Repository)
      → Counted n t ls r
      → now - t < failure_summary_interval
      → Counted (suc n) t ls (log_write_failure batch key now r)
  unfolding log_again
  suppressed_one n t now ls r (e, l, v) h =
      rw (again (n, t) now r e, lt→ltb (now - t) failure_summary_interval h)
        (
          get-altered (n, t) (suc n, t) r.logged_failures e,
          l,
          alter-IsValid r.logged_failures key (suc n, t) v,
        )

  suppressed_each :
      (n t : ℕ) (times : List ℕ) (ls : List Line) (r : Repository)
      → Counted n t ls r
      → All (λ now. now - t < failure_summary_interval) times
      → Counted (n + length times) t ls (log_all times r)
  unfolding log_all
  suppressed_each n t [] ls r c h = subst (λ m. Counted m t ls r) (omega arith) c
  suppressed_each n t (now ∷ times) ls r c h =
      subst (λ m. Counted m t ls (log_all times (log_write_failure batch key now r))) (omega arith)
        (suppressed_each (suc n) t times ls (log_write_failure batch key now r)
          (suppressed_one n t now ls r c h.0) h.1)

  -- After the interval the next repeat is logged with the count.
  summarised :
      (n t now : ℕ) (ls : List Line) (r : Repository)
      → Counted n t ls r
      → failure_summary_interval ≤ now - t
      → Counted 0 now
          (ls ++ summary_line batch key (suc n) (now - t) ∷ [])
          (log_write_failure batch key now r)
  unfolding log_again
  summarised n t now ls r (e, l, v) h =
      let v' = alter-IsValid r.logged_failures key (suc n, t) v in
      rw (again (n, t) now r e, ge→ltb (now - t) failure_summary_interval h)
        (
          get-set_item_same (Bounded.alter r.logged_failures key (suc n, t)) key (0, now) v',
          ap (λ xs. xs ++ summary_line batch key (suc n) (now - t) ∷ []) l,
          set_item-IsValid (Bounded.alter r.logged_failures key (suc n, t)) key (0, now) v',
        )

  first_logged :
      (t : ℕ) (r : Repository)
      → Bounded.IsValid r.logged_failures
      → Bounded.get r.logged_failures key ≡ none
      → Counted 0 t (r.lines ++ failure_line batch key ∷ []) (log_write_failure batch key t r)
  unfolding log_write_failure
  first_logged t r v e =
      rw (e, log_write_failure)
        (
          get-set_item_same r.logged_failures key (0, t) v,
          refl,
          set_item-IsValid r.logged_failures key (0, t) v,
        )

  -- With a valid record of failures, a failure of a kind that was not logged before, any number of
  -- repeats within a minute of it, and one repeat a minute or more after it give two lines: the
  -- first failure in full, and one summary that counts every repeat.
  pub lines-log_all :
      (r : Repository) (t : ℕ) (times : List ℕ) (now : ℕ)
      → Bounded.IsValid r.logged_failures
      → Bounded.get r.logged_failures key ≡ none
      → All (λ u. u - t < failure_summary_interval) times
      → failure_summary_interval ≤ now - t
      → (log_write_failure batch key now (log_all times (log_write_failure batch key t r))).lines
        ≡ (r.lines ++ failure_line batch key ∷ [])
          ++ summary_line batch key (suc (length times)) (now - t) ∷ []
  lines-log_all r t times now v e h k =
      (summarised (length times) t now (r.lines ++ failure_line batch key ∷ [])
        (log_all times (log_write_failure batch key t r))
        (subst
          (λ m.
            Counted m t (r.lines ++ failure_line batch key ∷ [])
              (log_all times (log_write_failure batch key t r)))
          (omega arith)
          (suppressed_each 0 t times (r.lines ++ failure_line batch key ∷ [])
            (log_write_failure batch key t r) (first_logged t r v e) h))
        k).1
