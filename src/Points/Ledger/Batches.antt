-- ===== src/Points/Ledger/Batches.antt =====
-- The loop of `redeemPoints` over the batches that it read.
use text.Mathlib.TextEquality.{IsScalar-prop}
use native.Mathlib.Bridge.{le_prop}
use mathlib.Core.List.Perm
use seatwaves_backend.Common.{
  ℕ, ◌≡◌, refl, sym, ◌≢◌, ◌∙◌, true, List, [], ◌∷◌, some, arith, ◌==◌, if◌then◌else◌, inl, inr,
  Bool-cases, All, All-map, All-map_mem, All-keep, All-perm, Pairwise-keep, keep, Mem, Pairwise,
}
use seatwaves_backend.Common.Int.{ℤ, pos, ◌-ℤ◌, ◌≤ℤ◌, leb_ℤ, min_ℤ, int_laws, zero-+ℤ}
use seatwaves_backend.Database.Table.{
  find_unique, update, HasUniqueIds, total, find_unique-update_ne, total-update,
  update-HasUniqueIds, All-update, HasUniqueIds-Pairwise, mem-find_unique, total-perm,
}
use seatwaves_backend.Database.Queries.{Queries}
use seatwaves_backend.Points.Data.{RewardPoints, reward_id, held, held_points}
use seatwaves_backend.Points.Redeem.{spend, redeem_loop, is_active_of, active_batches}
use seatwaves_backend.Points.Ledger.Holdings.{IsNonneg}

-- The batch stands in the table as it was read, belongs to the user and is active.
abbrev pub IsCurrent : ℕ → List RewardPoints → RewardPoints → Type 0
IsCurrent u rewards b =
    (find_unique reward_id b.id rewards ≡ some b) × (is_active_of u b ≡ true) × IsNonneg b

abbrev pub DistinctIds : List RewardPoints → Type 0
DistinctIds batches = Pairwise (λ a b. a.id ≢ b.id) batches

spend-IsNonneg : (b : RewardPoints) (wanted : ℤ) → pos 0 ≤ℤ b.remaining -ℤ min_ℤ b.remaining wanted
spend-IsNonneg b wanted = grind int_laws

-- One step of the loop on what a user holds.
held_points-spend :
    (u v : ℕ) (b : RewardPoints) (deduct : ℤ) (rewards : List RewardPoints)
    → IsCurrent u rewards b
    → held_points v (update reward_id b.id (spend b deduct) rewards)
      ≡ (if u == v then held_points v rewards -ℤ deduct else held_points v rewards)
held_points-spend u v b deduct rewards (f, a, h) =
    grind (int_laws, total-update reward_id (held v) b.id (spend b deduct) rewards f)

module _ (u : ℕ) where
  -- The batches still to come are not touched by the write to another one.
  spend-IsCurrent :
      (b : RewardPoints) (deduct : ℤ) (batches rewards : List RewardPoints)
      → ((a : RewardPoints) → Mem a batches → b.id ≢ a.id)
      → All (IsCurrent u rewards) batches
      → All (IsCurrent u (update reward_id b.id (spend b deduct) rewards)) batches
  spend-IsCurrent b deduct batches rewards ne = All-map_mem (IsCurrent u rewards) _ batches λ a m h.
      (
        find_unique-update_ne reward_id b.id a.id (spend b deduct) rewards (λ r. refl) (ne a m)
            ∙ h.0,
        h.1,
        h.2,
      )

  pub redeem_loop-held :
      (v : ℕ) (batches : List RewardPoints) (wanted : ℤ) (rewards : List RewardPoints)
      → DistinctIds batches
      → All (IsCurrent u rewards) batches
      → let (left, rewards') = redeem_loop batches wanted rewards in
        held_points v rewards'
        ≡ (if u == v then held_points v rewards -ℤ (wanted -ℤ left) else held_points v rewards)
  unfolding redeem_loop
  redeem_loop-held v [] wanted rewards d c = grind int_laws
  redeem_loop-held v (b ∷ batches) wanted rewards (Pairwise.cons ne d) c =
      let deduct : ℤ = min_ℤ b.remaining wanted in
      grind (
        int_laws,
        redeem_loop-held v batches (wanted -ℤ deduct)
            (update reward_id b.id (spend b deduct) rewards) d
            (spend-IsCurrent b deduct batches rewards ne c.1),
        held_points-spend u v b deduct rewards c.0,
      )

pub redeem_loop-IsNonneg :
    (batches : List RewardPoints) (wanted : ℤ) (rewards : List RewardPoints)
    → All IsNonneg batches
    → All IsNonneg rewards
    → All IsNonneg (redeem_loop batches wanted rewards).1
unfolding redeem_loop
redeem_loop-IsNonneg [] wanted rewards p h = h
redeem_loop-IsNonneg (b ∷ batches) wanted rewards p h = elim (Bool-cases (leb_ℤ wanted (pos 0))) [
  | inl e ↦ rw e h
  | inr e ↦
      let deduct : ℤ = min_ℤ b.remaining wanted in
      rw e (
        redeem_loop-IsNonneg batches (wanted -ℤ deduct)
          (update reward_id b.id (spend b deduct) rewards) p.1
          (All-update reward_id IsNonneg b.id (spend b deduct) rewards
            (λ r _. spend-IsNonneg b wanted) h))
]

pub redeem_loop-HasUniqueIds :
    (batches : List RewardPoints) (wanted : ℤ) (rewards : List RewardPoints)
    → HasUniqueIds reward_id rewards
    → HasUniqueIds reward_id (redeem_loop batches wanted rewards).1
unfolding redeem_loop
redeem_loop-HasUniqueIds [] wanted rewards h = h
redeem_loop-HasUniqueIds (b ∷ batches) wanted rewards h =
    let deduct : ℤ = min_ℤ b.remaining wanted in
    ground (
      arith,
      redeem_loop-HasUniqueIds batches (wanted -ℤ deduct)
          (update reward_id b.id (spend b deduct) rewards)
          (update-HasUniqueIds reward_id b.id (spend b deduct) rewards (λ r. refl) h),
    )

-- Nothing is left to redeem if the batches hold enough, and never less than nothing.
pub redeem_loop-left :
    (batches : List RewardPoints) (wanted : ℤ) (rewards : List RewardPoints)
    → All IsNonneg batches
    → pos 0 ≤ℤ wanted
    → wanted ≤ℤ total reward_id (λ b. b.remaining) batches
    → (redeem_loop batches wanted rewards).0 ≡ pos 0
unfolding redeem_loop
redeem_loop-left [] wanted rewards p h k = omega int_laws
redeem_loop-left (b ∷ batches) wanted rewards p h k =
    let deduct : ℤ = min_ℤ b.remaining wanted in
    grind (
      int_laws,
      redeem_loop-left batches (wanted -ℤ deduct) (update reward_id b.id (spend b deduct) rewards)
          p.1,
    )

pub RewardPoints-set : IsSet RewardPoints
RewardPoints-set = hlevel IsScalar-prop

IsCurrent-prop :
    (u : ℕ) (rewards : List RewardPoints) (b : RewardPoints) → IsProp (IsCurrent u rewards b)
IsCurrent-prop u rewards b = hlevel (RewardPoints-set, le_prop)

-- The batches that the query returns stand in the table, apart, and hold the user's points.
module _ (q : Queries) (u : ℕ) (rewards : List RewardPoints) where
  pub active_batches-DistinctIds :
      HasUniqueIds reward_id rewards → DistinctIds (active_batches q u rewards)
  unfolding active_batches
  active_batches-DistinctIds h =
      Perm.pairwise (λ a b. hlevel) (λ a b ne e. ne (sym e))
        (Perm.symm
          (q.order_by-perm RewardPoints (λ b. b.earned_at) (keep (is_active_of u) rewards)))
        (Pairwise-keep _ (is_active_of u) rewards (HasUniqueIds-Pairwise reward_id rewards h))

  pub active_batches-IsCurrent :
      HasUniqueIds reward_id rewards
      → All IsNonneg rewards
      → All (IsCurrent u rewards) (active_batches q u rewards)
  unfolding active_batches
  active_batches-IsCurrent h p =
      All-perm (IsCurrent u rewards) _ _ (IsCurrent-prop u rewards)
        (q.order_by-perm RewardPoints (λ b. b.earned_at) (keep (is_active_of u) rewards))
        (All-map _ (IsCurrent u rewards) (λ b f. (f.0.0, f.1, f.0.1)) _
          (All-keep (λ b. (find_unique reward_id b.id rewards ≡ some b) × IsNonneg b)
            (is_active_of u) rewards
            (All-map_mem IsNonneg _ rewards
              (λ b m k. (mem-find_unique reward_id RewardPoints-set rewards h b m, k)) p)))

  total-keep_active :
      (t : List RewardPoints)
      → total reward_id (λ b. b.remaining) (keep (is_active_of u) t) ≡ held_points u t
  total-keep_active [] = refl
  total-keep_active (b ∷ t) = ground (arith, total-keep_active t, zero-+ℤ (held_points u t))

  pub total-active_batches :
      total reward_id (λ b. b.remaining) (active_batches q u rewards) ≡ held_points u rewards
  unfolding active_batches
  total-active_batches =
      total-perm reward_id (λ b. b.remaining) _ _
        (q.order_by-perm RewardPoints (λ b. b.earned_at) (keep (is_active_of u) rewards))
      ∙ total-keep_active rewards
