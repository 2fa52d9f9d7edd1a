-- ===== src/Transactions/Paid.antt =====
-- The payments, payouts and refunds of bookings are linked to what they come from.
use Prim.Native.String.{String}
use mathlib.Core.Option
use seatwaves_backend.Common.{ℕ, refl, ap, true, not, none, arith, inl, inr, not_found, pure}
use seatwaves_backend.Common.Keeps.{
  Keeps, pure-Keeps, gets-Keeps, or_throw-Keeps, bind-Keeps, transactional-Keeps, bind_ok-keeps,
  bind_err-keeps, bind-keeps_at,
}
use seatwaves_backend.Orders.Data.{success}
use seatwaves_backend.Transactions.Data.{Money, Booking, Terms, Transaction, Books, find_booking}
use seatwaves_backend.Transactions.Service.{append_row, insert_row}
use seatwaves_backend.Transactions.Flows.{
  payment_terms, commission_terms, is_wide_payment, fee, create_payment, create_commission, pay,
  process_booking_payment,
}
use seatwaves_backend.Transactions.Links.{IsSound, IsLinked, append-IsSound, not_found_below}
use seatwaves_backend.Transactions.Sound.{
  last-found, inserted, insert_row-cases, insert_row-IsSound,
}

module _ (m : Money) where
  abbrev State : Type 0
  State = Books m.Decimal

  module _ (b : Booking) (amount percentage : m.Number) (intent : String) (customer : ℕ)
      (s : Books m.Decimal) (h : IsSound s) where
    abbrev paid : Terms m.Decimal
    paid = payment_terms m b amount percentage intent customer

    abbrev payment : Transaction m.Decimal
    payment = inserted m (is_wide_payment m amount percentage) paid success none true s

    abbrev with_payment : Books m.Decimal
    with_payment = append_row m payment s

    -- The commission of a payment that was just written.
    commission-IsLinked :
        IsLinked with_payment.transactions (commission_terms m b amount percentage s.next_id)
    commission-IsLinked =
        let found =
          last-found s.next_id s.transactions payment
            (not_found_below s.next_id s.transactions h.below) (ground arith) in
        (paid, ap (Option.map (λ (t : Transaction m.Decimal). t.terms)) found, (refl, refl, refl))

    create_commission-IsSound :
        IsSound (create_commission m b amount percentage payment with_payment).1
    create_commission-IsSound =
        bind-keeps_at {P = IsSound}
          (insert_row m (not (m.fits (fee m amount percentage)))
            (commission_terms m b amount percentage s.next_id) success none true)
          (λ r. pure payment) with_payment
          (insert_row-IsSound m _ _ _ _ _ with_payment (append-IsSound s payment h refl tt)
            commission-IsLinked)
          (λ r. pure-Keeps payment)

    pay-IsSound : IsSound (pay m b amount percentage intent customer s).1
    pay-IsSound =
        elim (insert_row-cases m (is_wide_payment m amount percentage) paid success none true s) [
          | inr e ↦
              bind_err-keeps IsSound (create_payment m b amount percentage intent customer)
                (create_commission m b amount percentage) s e h
          | inl e ↦
              bind_ok-keeps IsSound (create_payment m b amount percentage intent customer)
                (create_commission m b amount percentage) s e create_commission-IsSound
        ]

  pay-Sound :
      (b : Booking) (amount percentage : m.Number) (intent : String) (customer : ℕ)
      → Keeps IsSound (pay m b amount percentage intent customer)
  pay-Sound b amount percentage intent customer = record {
    keeps = λ s h. pay-IsSound b amount percentage intent customer s h;
  }

  pub process_booking_payment-Sound :
      (booking : ℕ) (amount percentage : m.Number) (intent : String) (customer : ℕ)
      → Keeps IsSound (process_booking_payment m booking amount percentage intent customer)
  unfolding process_booking_payment
  process_booking_payment-Sound booking amount percentage intent customer =
      transactional-Keeps IsSound _ (
        bind-Keeps _ _ (gets-Keeps (λ (s : State). find_booking booking s.bookings)) (λ found.
          bind-Keeps _ _ (or_throw-Keeps found not_found)
            (λ b. pay-Sound b amount percentage intent customer)))
