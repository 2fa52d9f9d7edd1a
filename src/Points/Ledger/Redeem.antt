-- ===== src/Points/Ledger/Redeem.antt =====
-- `redeemPoints` on the batches and the balances.
use seatwaves_backend.Common.{
  ℕ, ◌≡◌, refl, List, arith, ◌==◌, if◌then◌else◌, inl, inr, Result, ok, err, bad_request,
  Bool-cases, All, All-map,
}
use seatwaves_backend.Common.Int.{ℤ, pos, ◌-ℤ◌, ◌≤ℤ◌, leb_ℤ, int_laws}
use seatwaves_backend.Database.Queries.{Queries}
use seatwaves_backend.Points.Data.{
  RewardPoints, UserLoyalty, Loyalty, balance, get_or_create_account, get_or_create_user_loyalty,
}
use seatwaves_backend.Points.Redeem.{
  RedeemParams, redeem_loop, debit, active_batches, redeem_points, record_redemption,
}
use seatwaves_backend.Points.Ledger.Batches.{
  IsCurrent, redeem_loop-held, redeem_loop-IsNonneg, redeem_loop-HasUniqueIds, redeem_loop-left,
  active_batches-DistinctIds, active_batches-IsCurrent, total-active_batches,
}
use seatwaves_backend.Points.Ledger.Holdings.{
  with_account, with_account-IsConsistent, IsNonneg, IsConsistent, balance-update,
  balance-get_or_create_account, find_unique-get_or_create_account,
}

module _ (q : Queries) {Number : Type 0} where
  -- The writes of a redemption that the loop could serve.
  abbrev pub redeemed_state : RedeemParams → Loyalty Number → Loyalty Number
  redeemed_state params s =
      record_redemption q params
        (redeem_loop (active_batches q params.user_id s.rewards) params.points s.rewards).1 s

  module _ (params : RedeemParams) (s : Loyalty Number) (b : IsConsistent s)
      (positive : pos 1 ≤ℤ params.points) where
    account : UserLoyalty
    account = (get_or_create_account params.user_id s.accounts).0

    account-balance : account.current_points ≡ balance params.user_id s.accounts
    unfolding account
    account-balance = ground (
      arith,
      find_unique-get_or_create_account params.user_id s.accounts,
      balance-get_or_create_account params.user_id params.user_id s.accounts,
    )

    -- The batches cover what the balance covers: nothing is left after the loop.
    loop-left :
        params.points ≤ℤ balance params.user_id s.accounts
        → (redeem_loop (active_batches q params.user_id s.rewards) params.points s.rewards).0
          ≡ pos 0
    loop-left covered =
        redeem_loop-left (active_batches q params.user_id s.rewards) params.points s.rewards
          (All-map _ IsNonneg (λ a h. h.2) _
            (active_batches-IsCurrent q params.user_id s.rewards b.unique b.nonneg))
          (omega arith)
          (rw (total-active_batches q params.user_id s.rewards, ← b.balanced params.user_id)
            covered)

    redeem_points-eq :
        params.points ≤ℤ balance params.user_id s.accounts
        → redeem_points q params s
          ≡ (ok params.points, redeemed_state params (with_account params.user_id s))
    unfolding redeem_points get_or_create_user_loyalty account
    redeem_points-eq covered = ground (arith, account-balance, loop-left covered)

    redeem_points-short :
        ¬ (params.points ≤ℤ balance params.user_id s.accounts)
        → redeem_points q params s ≡ (err bad_request, with_account params.user_id s)
    unfolding redeem_points get_or_create_user_loyalty account
    redeem_points-short short = ground (arith, account-balance)

  redeemed_state-balance :
      (params : RedeemParams) (s : Loyalty Number) (v : ℕ)
      → balance v (redeemed_state params (with_account params.user_id s)).accounts ≡ (
          if params.user_id == v
          then balance v s.accounts -ℤ params.points
          else balance v s.accounts)
  redeemed_state-balance params s v = ground (
    arith,
    balance-update params.user_id v (debit params.points)
        (get_or_create_account params.user_id s.accounts).1 (λ a. refl)
        (find_unique-get_or_create_account params.user_id s.accounts),
    find_unique-get_or_create_account params.user_id s.accounts,
    balance-get_or_create_account params.user_id v s.accounts,
    balance-get_or_create_account params.user_id params.user_id s.accounts,
  )

  redeemed_state-IsConsistent :
      (params : RedeemParams) (s : Loyalty Number)
      → pos 1 ≤ℤ params.points
      → params.points ≤ℤ balance params.user_id s.accounts
      → IsConsistent s
      → IsConsistent (redeemed_state params (with_account params.user_id s))
  redeemed_state-IsConsistent params s positive covered b = record {
    unique = redeem_loop-HasUniqueIds batches params.points s.rewards b.unique;
    nonneg =
        redeem_loop-IsNonneg batches params.points s.rewards
          (All-map _ IsNonneg (λ a h. h.2) _ current) b.nonneg;
    balanced = λ v. grind (
      int_laws,
      redeemed_state-balance params s v,
      loop-left params s b positive covered,
      redeem_loop-held params.user_id v batches params.points s.rewards
          (active_batches-DistinctIds q params.user_id s.rewards b.unique) current,
      b.balanced v,
    );
  }
    where
      batches : List RewardPoints
      batches = active_batches q params.user_id s.rewards

      current : All (IsCurrent params.user_id s.rewards) batches
      current = active_batches-IsCurrent q params.user_id s.rewards b.unique b.nonneg

  -- What a redemption answers, and what it makes of the balances and batches.
  abbrev pub Redeems : RedeemParams → Loyalty Number → Result ℤ × Loyalty Number → Type 0
  Redeems params s (ok points, s') =
      (points ≡ params.points)
      × (params.points ≤ℤ balance params.user_id s.accounts)
      × IsConsistent s'
      × ((v : ℕ)
          → balance v s'.accounts ≡ (
              if params.user_id == v
              then balance v s.accounts -ℤ params.points
              else balance v s.accounts))
  Redeems params s (err e, s') =
      (e ≡ bad_request)
      × (¬ (params.points ≤ℤ balance params.user_id s.accounts))
      × IsConsistent s'
      × (s'.rewards ≡ s.rewards)
      × ((v : ℕ) → balance v s'.accounts ≡ balance v s.accounts)

  -- In a consistent state a redemption of a positive number of points succeeds exactly when the
  -- balance covers it, and then takes that number from the balance of its user and of no other;
  -- a refused one changes no balance and no batch. The state stays consistent in both cases.
  pub redeem_points-Redeems :
      (params : RedeemParams) (s : Loyalty Number)
      → IsConsistent s
      → pos 1 ≤ℤ params.points
      → Redeems params s (redeem_points q params s)
  redeem_points-Redeems params s b positive =
      elim (Bool-cases (leb_ℤ params.points (balance params.user_id s.accounts))) [
        | inl e ↦
            let covered : params.points ≤ℤ balance params.user_id s.accounts = ground arith in
            rw (redeem_points-eq params s b positive covered) (
              refl,
              covered,
              redeemed_state-IsConsistent params s positive covered b,
              redeemed_state-balance params s,
            )
        | inr e ↦
            let short : ¬ (params.points ≤ℤ balance params.user_id s.accounts) = ground arith in
            rw (redeem_points-short params s b positive short) (
              refl,
              short,
              with_account-IsConsistent params.user_id s b,
              refl,
              λ v. balance-get_or_create_account params.user_id v s.accounts,
            )
      ]
