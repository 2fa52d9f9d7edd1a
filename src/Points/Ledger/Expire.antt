-- ===== src/Points/Ledger/Expire.antt =====
-- `expireJob` on the batches and the balances.
use mathlib.Core.List.{Mem}
use mathlib.Core.List.Perm
use native.Mathlib.Bridge.{le_prop}
use seatwaves_backend.Common.{
  ℕ, ◌≡◌, refl, sym, ◌≢◌, ◌∙◌, true, List, [], ◌∷◌, some, arith, ok, All, All-map, All-map_mem,
  All-keep, All-zip, All-take, Pairwise-take, All-perm, Pairwise, Pairwise-keep, keep, length,
}
use seatwaves_backend.Common.Int.{ℤ, pos, ◌-ℤ◌, ◌≤ℤ◌, int_laws, zero-+ℤ}
use seatwaves_backend.Database.Table.{
  find_unique, update, HasUniqueIds, total, total-update, find_unique-update_ne,
  update-HasUniqueIds, All-update, HasUniqueIds-Pairwise, mem-find_unique,
}
use seatwaves_backend.Database.Queries.{Queries}
use seatwaves_backend.Points.Data.{RewardPoints, Loyalty, is_active, reward_id, held, held_points}
use seatwaves_backend.Points.Expire.{
  Sums, expiry_key, by_user, expire, expire_loop, is_due, due_batches, expire_job,
}
use seatwaves_backend.Points.Ledger.Holdings.{IsNonneg, IsConsistent}
use seatwaves_backend.Points.Ledger.Batches.{DistinctIds, RewardPoints-set}
use seatwaves_backend.Points.Ledger.Sums.{
  sum_of, held_by, IsPositive, IsCovered, sum_of-by_user, by_user-OneEntry, by_user-IsPositive,
  sum_of-entry, debit_loop-balance,
}

-- The batch stands in the table as it was read, and is active.
abbrev IsStored : List RewardPoints → RewardPoints → Type 0
IsStored rewards b =
    (find_unique reward_id b.id rewards ≡ some b) × (is_active b.status ≡ true) × IsNonneg b

held_points-expire :
    (v : ℕ) (b : RewardPoints) (rewards : List RewardPoints)
    → IsStored rewards b
    → held_points v (update reward_id b.id expire rewards) ≡ held_points v rewards -ℤ held_by v b
held_points-expire v b rewards (f, a, h) =
    grind (int_laws, total-update reward_id (held v) b.id expire rewards f)

expire-IsStored :
    (b : RewardPoints) (batches rewards : List RewardPoints)
    → ((a : RewardPoints) → Mem a batches → b.id ≢ a.id)
    → All (IsStored rewards) batches
    → All (IsStored (update reward_id b.id expire rewards)) batches
expire-IsStored b batches rewards ne = All-map_mem (IsStored rewards) _ batches λ a m h.
    (find_unique-update_ne reward_id b.id a.id expire rewards (λ r. refl) (ne a m) ∙ h.0, h.1, h.2)

-- The first loop takes what the batches hold from their users.
expire_loop-held :
    (v : ℕ) (batches rewards : List RewardPoints)
    → DistinctIds batches
    → All (IsStored rewards) batches
    → held_points v (expire_loop batches rewards)
      ≡ held_points v rewards -ℤ total reward_id (held_by v) batches
unfolding expire_loop
expire_loop-held v [] rewards d c = omega int_laws
expire_loop-held v (b ∷ batches) rewards (Pairwise.cons ne d) c = grind (
  int_laws,
  expire_loop-held v batches (update reward_id b.id expire rewards) d
      (expire-IsStored b batches rewards ne c.1),
  held_points-expire v b rewards c.0,
)

expire_loop-IsNonneg :
    (batches rewards : List RewardPoints)
    → All IsNonneg rewards
    → All IsNonneg (expire_loop batches rewards)
unfolding expire_loop
expire_loop-IsNonneg [] rewards h = h
expire_loop-IsNonneg (b ∷ batches) rewards h =
    expire_loop-IsNonneg batches (update reward_id b.id expire rewards)
      (All-update reward_id IsNonneg b.id expire rewards (λ r _. omega arith) h)

expire_loop-HasUniqueIds :
    (batches rewards : List RewardPoints)
    → HasUniqueIds reward_id rewards
    → HasUniqueIds reward_id (expire_loop batches rewards)
unfolding expire_loop
expire_loop-HasUniqueIds [] rewards h = h
expire_loop-HasUniqueIds (b ∷ batches) rewards h =
    expire_loop-HasUniqueIds batches (update reward_id b.id expire rewards)
      (update-HasUniqueIds reward_id b.id expire rewards (λ r. refl) h)

held_points-nonneg :
    (v : ℕ) (rewards : List RewardPoints) → All IsNonneg rewards → pos 0 ≤ℤ held_points v rewards
held_points-nonneg v [] h = omega arith
held_points-nonneg v (b ∷ rewards) h = grind (int_laws, held_points-nonneg v rewards h.1)

IsStored-prop : (rewards : List RewardPoints) (b : RewardPoints) → IsProp (IsStored rewards b)
IsStored-prop rewards b = hlevel (RewardPoints-set, le_prop)

module _ (q : Queries) (now limit : ℕ) (rewards : List RewardPoints)
    (unique : HasUniqueIds reward_id rewards) where
  due_batches-DistinctIds : DistinctIds (due_batches q now limit rewards)
  unfolding due_batches
  due_batches-DistinctIds = Pairwise-take _ limit _ (
      Perm.pairwise (λ a b. hlevel) (λ a b ne e. ne (sym e))
        (Perm.symm (q.order_by-perm RewardPoints expiry_key (keep (is_due now) rewards)))
        (Pairwise-keep _ (is_due now) rewards (HasUniqueIds-Pairwise reward_id rewards unique)))

  due_batches-IsStored :
      All IsNonneg rewards → All (IsStored rewards) (due_batches q now limit rewards)
  unfolding due_batches
  due_batches-IsStored p = All-take _ limit _ (
      All-perm (IsStored rewards) _ _ (IsStored-prop rewards)
        (q.order_by-perm RewardPoints expiry_key (keep (is_due now) rewards))
        (All-map _ (IsStored rewards) (λ b f. (f.0.0, ground arith, f.0.1)) _
          (All-keep (λ b. (find_unique reward_id b.id rewards ≡ some b) × IsNonneg b) (is_due now)
            rewards
            (All-map_mem IsNonneg _ rewards
              (λ b m k. (mem-find_unique reward_id RewardPoints-set rewards unique b m, k)) p))))

module _ (q : Queries) (now limit : ℕ) {Number : Type 0} (s : Loyalty Number)
    (c : IsConsistent s) where
  abbrev batches : List RewardPoints
  batches = due_batches q now limit s.rewards

  abbrev sums : Sums
  sums = by_user batches []

  stored : All (IsStored s.rewards) batches
  stored = due_batches-IsStored q now limit s.rewards c.unique c.nonneg

  distinct : DistinctIds batches
  distinct = due_batches-DistinctIds q now limit s.rewards c.unique

  sums-total : (u : ℕ) → sum_of u sums ≡ total reward_id (held_by u) batches
  sums-total u =
      sum_of-by_user u batches [] (All-map _ IsNonneg (λ b h. h.2) batches stored) ∙ zero-+ℤ _

  sums-IsCovered : All (IsCovered s.accounts) sums
  sums-IsCovered =
      All-map _ (IsCovered s.accounts) (λ e f. covered e f.0 f.1) sums
        (All-zip (λ (e : ℕ × ℤ). sum_of e.0 sums ≡ e.1) IsPositive sums
          (sum_of-entry sums (by_user-OneEntry batches [] tt)) (by_user-IsPositive batches [] tt))
    where
      covered : (e : ℕ × ℤ) → sum_of e.0 sums ≡ e.1 → IsPositive e → IsCovered s.accounts e
      covered e f g = grind (
        int_laws,
        sums-total e.0,
        expire_loop-held e.0 batches s.rewards distinct stored,
        held_points-nonneg e.0 (expire_loop batches s.rewards)
            (expire_loop-IsNonneg batches s.rewards c.nonneg),
        c.balanced e.0,
      )

  -- In a consistent state `expireJob` finds the account of every batch that it expires, counts the
  -- batches, and leaves the state consistent.
  pub expire_job-IsConsistent :
      ((expire_job q now limit s).0 ≡ ok (length batches))
      × IsConsistent (expire_job q now limit s).1
  unfolding expire_job
  expire_job-IsConsistent =
      let (accounts, e, bal) =
        debit_loop-balance sums s.accounts (by_user-OneEntry batches [] tt) sums-IsCovered in
      rw (e, expire_job)
        (
          refl,
          record {
            unique = expire_loop-HasUniqueIds batches s.rewards c.unique;
            nonneg = expire_loop-IsNonneg batches s.rewards c.nonneg;
            balanced = λ u. grind (
              int_laws,
              bal u,
              sums-total u,
              c.balanced u,
              expire_loop-held u batches s.rewards distinct stored,
            );
          },
        )
