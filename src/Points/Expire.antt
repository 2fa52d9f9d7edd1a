-- ===== src/Points/Expire.antt =====
-- `expireJob` of src/points/points.service.ts.
use seatwaves_backend.Common.{
  ℕ, Bool, false, ◌&&◌, List, [], ◌∷◌, Option, none, some, ◌==◌, leb, if◌then◌else◌, keep, take,
  length, Action, failure, ok, err,
}
use seatwaves_backend.Common.Int.{ℤ, pos, ◌+ℤ◌, ◌-ℤ◌, ltb_ℤ}
use seatwaves_backend.Database.Table.{find_unique, update}
use seatwaves_backend.Database.Queries.{Queries}
use seatwaves_backend.Points.Data.{
  RewardPoints, UserLoyalty, Loyalty, expired, is_active, reward_id, account_id,
}

-- `new Map<string, number>()`, in the order in which the keys were first set.
abbrev pub Sums : Type 0
Sums = List (ℕ × ℤ)

-- `byUser.set(u, (byUser.get(u) || 0) + x)`
unfoldable pub add_to : ℕ → ℤ → Sums → Sums
add_to u x [] = (u, x) ∷ []
add_to u x ((v, y) ∷ m) = if v == u then (v, y +ℤ x) ∷ m else (v, y) ∷ add_to u x m

-- `byUser`, from the batches that still hold points.
unfoldable pub by_user : List RewardPoints → Sums → Sums
unfolding add_to
by_user [] m = m
by_user (b ∷ batches) m =
    by_user batches (if ltb_ℤ (pos 0) b.remaining then add_to b.user_id b.remaining m else m)

abbrev pub expire : RewardPoints → RewardPoints
expire r = record r { remaining = pos 0; status = expired }

-- The first loop of the transaction.
unfoldable pub expire_loop : List RewardPoints → List RewardPoints → List RewardPoints
expire_loop [] rewards = rewards
expire_loop (b ∷ batches) rewards = expire_loop batches (update reward_id b.id expire rewards)

abbrev pub decrement : ℤ → UserLoyalty → UserLoyalty
decrement dec a = record a { current_points = a.current_points -ℤ dec }

-- The second loop; `update` throws if the account does not exist.
unfoldable pub debit_loop : Sums → List UserLoyalty → Option (List UserLoyalty)
debit_loop [] accounts = some accounts
debit_loop ((u, dec) ∷ m) accounts = elim (find_unique account_id u accounts) [
  | none ↦ none
  | some _ ↦ debit_loop m (update account_id u (decrement dec) accounts)
]

-- `expiresAt: { lte: now }`; a batch with no date never expires.
abbrev pub has_passed : ℕ → Option ℕ → Bool
has_passed now none = false
has_passed now (some t) = leb t now

abbrev pub expiry_key : RewardPoints → ℕ
expiry_key b = elim b.expires_at [ none ↦ 0 | some t ↦ t ]

abbrev pub is_due : ℕ → RewardPoints → Bool
is_due now b = is_active b.status && has_passed now b.expires_at

module _ (q : Queries) where
  unfoldable pub due_batches : ℕ → ℕ → List RewardPoints → List RewardPoints
  due_batches now limit rewards =
      take limit (q.order_by RewardPoints expiry_key (keep (is_due now) rewards))

  -- `expireJob`; the result is the number of batches that it expired.
  unfoldable pub expire_job : {Number : Type 0} → ℕ → ℕ → Action (Loyalty Number) ℕ
  unfolding due_batches by_user expire_loop debit_loop
  expire_job now limit s =
      let batches = due_batches now limit s.rewards in
      elim (debit_loop (by_user batches []) s.accounts) [
        | none ↦ (err failure, s)
        | some accounts ↦ (
          ok (length batches),
          record s { rewards = expire_loop batches s.rewards; accounts = accounts },
        )
      ]
