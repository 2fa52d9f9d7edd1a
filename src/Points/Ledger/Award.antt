-- ===== src/Points/Ledger/Award.antt =====
-- `awardPoints` on the balances.
use seatwaves_backend.Common.{
  ℕ, ◌≡◌, List, [], Mem, ◌&&◌, keep, ◌==◌, if◌then◌else◌, Result, ok, err, not_found,
}
use seatwaves_backend.Common.Int.{ℤ, pos, ◌+ℤ◌, leb_ℤ}
use seatwaves_backend.Database.Queries.{Queries}
use seatwaves_backend.Points.Data.{
  Loyalty, Numbers, Calendar, PointRule, same_action, balance, get_or_create_account,
}
use seatwaves_backend.Points.Award.{AwardParams, calc_points_from_rule, tier_name}

module _ (n : Numbers) (c : Calendar) (q : Queries) where
  -- The points of a rule for the tier of the user.
  abbrev pub points_of : AwardParams → Loyalty n.Number → PointRule n.Number → ℤ
  points_of params s rule =
      calc_points_from_rule n rule
        (tier_name (get_or_create_account params.user_id s.accounts).0.tier_id s.tiers)
        params.amount_cents

  -- What a call with these rules for the action does to the balances.
  abbrev pub Credits :
      AwardParams
      → Loyalty n.Number
      → List (PointRule n.Number)
      → Result ℤ × Loyalty n.Number
      → Type 0
  Credits params s rules (ok points, s') =
      (rule : PointRule n.Number) × Mem rule rules
      × (points
          ≡ (if leb_ℤ (points_of params s rule) (pos 0) then pos 0 else points_of params s rule))
      × ((v : ℕ)
          → balance v s'.accounts ≡ (
              if params.user_id == v then balance v s.accounts +ℤ points else balance v s.accounts))
  Credits params s rules (err e, s') = (rules ≡ []) × (e ≡ not_found) × (s' ≡ s)

  -- The rules for the action that are active, as the table holds them.
  abbrev pub active_rules : AwardParams → Loyalty n.Number → List (PointRule n.Number)
  active_rules params s = keep (λ r. same_action r.action params.action && r.active) s.rules
