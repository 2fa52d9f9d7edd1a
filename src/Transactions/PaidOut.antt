-- ===== src/Transactions/PaidOut.antt =====
-- The payouts and refunds of bookings are linked to what they come from.
use Prim.Native.String.{String}
use mathlib.Core.Option
use seatwaves_backend.Common.{
  ℕ, zero, suc, All, keep, ◌≡◌, refl, ap, sym, subst, ◌∙◌, Bool, true, false, not, ◌&&◌, List, [],
  ◌∷◌, Option, none, some, arith, ◌==◌, same_id, if◌then◌else◌, Bool-cases, Option-cases, inl, inr,
  bad_request, ◌>>=◌, gets,
}
use seatwaves_backend.Common.Keeps.{
  Keeps, gets-Keeps, or_throw-Keeps, bind-Keeps, transactional-Keeps,
}
use seatwaves_backend.Database.Table.{find_unique, HasUniqueIds, find_unique-id}
use seatwaves_backend.Orders.Data.{success, booking_refund, coupon_refund}
use seatwaves_backend.Transactions.Data.{
  Money, Booking, Terms, Transaction, Books, find_booking, row_id, find_row,
}
use seatwaves_backend.Transactions.Service.{is_payment}
use seatwaves_backend.Transactions.Flows.{
  pays_for, row_at, pay_out, first_payment, payout_terms, process_host_payout, event_of,
  refund_terms, process_refund, give_back,
}
use seatwaves_backend.Transactions.Links.{IsSound, IsLinked, FitsAs}
use seatwaves_backend.Transactions.Sound.{same_id-eq, insert_row-IsSound}

and_true : (a b : Bool) → (a && b) ≡ true → (a ≡ true) × (b ≡ true)
and_true true b h = (refl, h)
and_true false b h = cc

module _ (m : Money) where
  abbrev State : Type 0
  State = Books m.Decimal

  -- A row that is a payment of the booking, and that its id finds.
  abbrev IsPaymentOf : ℕ → List (Transaction m.Decimal) → Transaction m.Decimal → Type 0
  IsPaymentOf booking rows t =
      (find_row t.id rows ≡ some t)
      × (is_payment t.terms.type ≡ true)
      × (same_id t.terms.booking_id (some booking) ≡ true)

  here-IsPaymentOf :
      (booking : ℕ) (rows : List (Transaction m.Decimal)) (x : Transaction m.Decimal)
      → (is_payment x.terms.type && same_id x.terms.booking_id (some booking)) ≡ true
      → IsPaymentOf booking (x ∷ rows) x
  unfolding find_row find_unique
  here-IsPaymentOf booking rows x e =
      let both = and_true (is_payment x.terms.type) _ e in (ground arith, both.0, both.1)

  there-found :
      (rows : List (Transaction m.Decimal)) (x t : Transaction m.Decimal)
      → find_row x.id rows ≡ none
      → find_row t.id rows ≡ some t
      → find_row t.id (x ∷ rows) ≡ some t
  unfolding find_row find_unique
  there-found rows x t absent found = elim (Bool-cases (x.id == t.id)) [
    | inr e ↦ rw e found
    | inl e ↦
        let same : x.id ≡ t.id = ground (arith, e) in
        absurd (Option.none-ne-some _ (sym absent ∙ ap (λ i. find_row i rows) same ∙ found))
  ]

  older-IsPaymentOf :
      (booking : ℕ) (rows found : List (Transaction m.Decimal)) (x : Transaction m.Decimal)
      → find_row x.id rows ≡ none
      → All (IsPaymentOf booking rows) found
      → All (IsPaymentOf booking (x ∷ rows)) found
  older-IsPaymentOf booking rows [] x absent h = tt
  older-IsPaymentOf booking rows (t ∷ ts) x absent (p, h) =
      ((there-found rows x t absent p.0, p.1, p.2), older-IsPaymentOf booking rows ts x absent h)

  all-IsPaymentOf :
      (booking : ℕ) (rows : List (Transaction m.Decimal))
      → HasUniqueIds row_id rows
      → All (IsPaymentOf booking rows) (keep (pays_for m booking) rows)
  unfolding find_row
  all-IsPaymentOf booking [] u = tt
  all-IsPaymentOf booking (x ∷ rows) u =
      let older =
        older-IsPaymentOf booking rows (keep (pays_for m booking) rows) x u.0
          (all-IsPaymentOf booking rows u.1) in
      elim (Bool-cases (pays_for m booking x)) [
        | inl e ↦ rw e (here-IsPaymentOf booking rows x e, older)
        | inr e ↦ rw e older
      ]

  row_at-All :
      (P : Transaction m.Decimal → Type 0) (pick : ℕ) (rows : List (Transaction m.Decimal))
      (t : Transaction m.Decimal)
      → All P rows
      → row_at pick rows ≡ some t
      → P t
  row_at-All P pick [] t h e = absurd (Option.none-ne-some _ e)
  row_at-All P pick (r ∷ []) t h e = subst P (Option.some_inj.0 e) h.0
  row_at-All P zero (r ∷ x ∷ rows) t h e = subst P (Option.some_inj.0 e) h.0
  row_at-All P (suc pick) (r ∷ x ∷ rows) t h e = row_at-All P pick (x ∷ rows) t h.1 e

  -- The payment of a booking that the database puts first.
  first_payment-IsPaymentOf :
      (pick booking : ℕ) (rows : List (Transaction m.Decimal)) (t : Transaction m.Decimal)
      → HasUniqueIds row_id rows
      → first_payment m pick booking rows ≡ some t
      → IsPaymentOf booking rows t
  first_payment-IsPaymentOf pick booking rows t u =
      row_at-All (IsPaymentOf booking rows) pick (keep (pays_for m booking) rows) t
        (all-IsPaymentOf booking rows u)

  module _ (pick : ℕ) (b : Booking) (transfer account : String) (s : Books m.Decimal)
      (h : IsSound s) where
    payout-IsLinked :
        (t : Transaction m.Decimal) (a : m.Decimal)
        → first_payment m pick b.id s.transactions ≡ some t
        → t.terms.seller_amount ≡ some a
        → IsLinked s.transactions (payout_terms m b t a transfer account)
    payout-IsLinked t a e k =
        let (found, paid, of) = first_payment-IsPaymentOf pick b.id s.transactions t h.unique e in
        (
          t.terms,
          ap (Option.map (λ (t : Transaction m.Decimal). t.terms)) found,
          (paid, sym k, sym (same_id-eq t.terms.booking_id b.id of)),
        )

    paid_out :
        (first : Option (Transaction m.Decimal))
        → first_payment m pick b.id s.transactions ≡ first
        → IsSound (pay_out m b transfer account first s).1
    paid_out none e = h
    paid_out (some t) e = elim (Option-cases t.terms.seller_amount) [
      | inl k ↦ rw k h
      | inr (a, k) ↦ rw k (
          insert_row-IsSound m false (payout_terms m b t a transfer account) success none true s h
            (payout-IsLinked t a e k))
    ]

  pay_out-Sound :
      (pick : ℕ) (b : Booking) (transfer account : String)
      → Keeps IsSound (
          gets (λ (s : State). first_payment m pick b.id s.transactions)
          >>= pay_out m b transfer account)
  pay_out-Sound pick b transfer account = record {
    keeps =
        λ s h. paid_out pick b transfer account s h (first_payment m pick b.id s.transactions) refl;
  }

  pub process_host_payout-Sound :
      (pick booking : ℕ) (transfer account : String)
      → Keeps IsSound (process_host_payout m pick booking transfer account)
  unfolding process_host_payout
  process_host_payout-Sound pick booking transfer account = transactional-Keeps IsSound _ (
      bind-Keeps _ _ (gets-Keeps (λ (s : State). find_booking booking s.bookings)) (λ found.
        bind-Keeps _ _ (or_throw-Keeps found bad_request)
          (λ b. pay_out-Sound pick b transfer account)))

  -- A refund of a row that is there.
  module _ (s : Books m.Decimal) (original : ℕ) (t : Transaction m.Decimal) (event : Option ℕ)
      (amount : m.Number) (refund : Option String) where
    abbrev back : Terms m.Decimal
    back = refund_terms m t event amount refund

    fits_as :
        (b : Bool)
        → is_payment t.terms.type ≡ b
        → FitsAs (if b then booking_refund else coupon_refund) back t.terms
    fits_as true e = (e, refl, refl, refl)
    fits_as false e = (e, refl, refl, refl)

    refund-IsLinked : find_row original s.transactions ≡ some t → IsLinked s.transactions back
    unfolding find_row
    refund-IsLinked h =
        let same = find_unique-id row_id original s.transactions h in
        (
          t.terms,
          ap (λ i. Option.map (λ (x : Transaction m.Decimal). x.terms) (find_row i s.transactions))
                same
              ∙ ap (Option.map (λ (x : Transaction m.Decimal). x.terms)) h,
          fits_as (is_payment t.terms.type) refl,
        )

  refunded :
      (original : ℕ) (amount : m.Number) (refund : Option String) (s : Books m.Decimal)
      → IsSound s
      → IsSound (give_back m amount refund (find_row original s.transactions) s).1
  refunded original amount refund s h = elim (Option-cases (find_row original s.transactions)) [
    | inl e ↦ rw e h
    | inr (t, e) ↦
        let event = event_of m t.terms.booking_id s.bookings in
        rw e (
          insert_row-IsSound m (not (m.fits (m.minus_abs amount)))
            (refund_terms m t event amount refund) success none true s h
            (refund-IsLinked s original t event amount refund e))
  ]

  refund_found-Sound :
      (original : ℕ) (amount : m.Number) (refund : Option String)
      → Keeps IsSound
          (gets (λ (s : State). find_row original s.transactions) >>= give_back m amount refund)
  refund_found-Sound original amount refund = record {
    keeps = λ s h. refunded original amount refund s h;
  }

  pub process_refund-Sound :
      (original : ℕ) (amount : m.Number) (refund : Option String)
      → Keeps IsSound (process_refund m original amount refund)
  unfolding process_refund
  process_refund-Sound original amount refund =
      transactional-Keeps IsSound _ (refund_found-Sound original amount refund)
