-- ===== src/Bookings/Laws/Verify.antt =====
-- `verifyBookingCode` of src/booking/booking.service.ts.
use Prim.Native.String.{String}
use seatwaves_backend.Common.{
  ℕ, ◌≡◌, refl, ap, ◌∙◌, Bool, true, false, List, [], ◌∷◌, Option, none, some, arith, ok, err,
  HttpError, if◌then◌else◌, ◌>>=◌, keep,
}
use seatwaves_backend.Database.Table.{find_unique, find_unique-update, find_unique-id}
use seatwaves_backend.Database.Queries.{Queries}
use seatwaves_backend.Orders.Data.{Booking, booking_id, user_id}
use seatwaves_backend.Orders.Data
use seatwaves_backend.Orders.Store.{Store, BookingOtp}
use seatwaves_backend.Stripe.Api.{StripeApi, System}
use seatwaves_backend.Stripe.Rollback.{RollsBack, Ensures, bind-RollsBack, bind-Ensures}
use seatwaves_backend.Bookings.Verify.{
  Delivery, find_otp, deliver, check_code, pay_seller, finish_delivery, verify_booking_code,
  store_delivery,
}
use text.Mathlib.Text.{◌==◌ as str_eq}
use seatwaves_backend.Bookings.Status.{is_delivered, set_status}
use seatwaves_backend.Bookings.Code.{delete_otps}
use seatwaves_backend.Bookings.Laws.Status.{status_at}

keep-delete_otps :
    (email : String) (otps : List BookingOtp)
    → keep (λ o. str_eq o.email email) (delete_otps email otps) ≡ []
keep-delete_otps email [] = refl
keep-delete_otps email (o ∷ otps) = ground (arith, keep-delete_otps email otps)

module _ (api : StripeApi) (n : Type 0) (q : Queries) (now : ℕ) where
  check_code-reads :
      (id : ℕ) (otp : String) (s : System n api.World) → (check_code api n q now id otp s).1 ≡ s
  unfolding check_code
  check_code-reads id otp s = ground arith

  pay_seller-store :
      (d : Delivery) (s : System n api.World) → (pay_seller api n q now d s).1.store ≡ s.store
  unfolding pay_seller
  pay_seller-store d s = ground arith

  finish_delivery-RollsBack :
      (fails : Bool) (d : Delivery) (transfer : Option String) (s : System n api.World)
      → RollsBack s (finish_delivery api n q now fails d transfer s)
  unfolding finish_delivery
  finish_delivery-RollsBack true d transfer s e h = refl
  finish_delivery-RollsBack false d transfer s e h = ground arith

  -- `verifyBookingCode` that throws leaves the database as it was, whichever check failed, whether
  -- Stripe refused the transfer, and when the database refused the transaction afterwards.
  pub verify_booking_code-RollsBack :
      (fails : Bool) (id : ℕ) (otp : String) (s : System n api.World) (e : HttpError)
      → (verify_booking_code api n q now fails id otp s).0 ≡ err e
      → (verify_booking_code api n q now fails id otp s).1.store ≡ s.store
  unfolding verify_booking_code
  verify_booking_code-RollsBack fails id otp s =
      bind-RollsBack (check_code api n q now id otp)
        (λ d. pay_seller api n q now d >>= finish_delivery api n q now fails d) s
        (ap (λ u. u.store) (check_code-reads id otp s))
        λ d.
          let s' = (check_code api n q now id otp s).1 in
          bind-RollsBack (pay_seller api n q now d) (finish_delivery api n q now fails d) s'
            (pay_seller-store d s')
            λ t. finish_delivery-RollsBack fails d t (pay_seller api n q now d s').1

  check_code-booking :
      (id : ℕ) (otp : String) (s : System n api.World) (d : Delivery)
      → (check_code api n q now id otp s).0 ≡ ok d
      → status_at id s.store ≡ some d.booking
  unfolding check_code
  check_code-booking id otp s d h = ground arith

  check_code-guest :
      (id : ℕ) (otp : String) (s : System n api.World) (d : Delivery)
      → (check_code api n q now id otp s).0 ≡ ok d
      → find_unique user_id d.booking.user_id s.store.users ≡ some d.guest
  unfolding check_code
  check_code-guest id otp s d h = ground arith

  abbrev pub delivered_booking : Booking → Booking
  delivered_booking b = if is_delivered b.status then b else set_status now Data.delivered b

  -- What a verification makes of the booking and of the codes of its guest.
  abbrev pub Delivers : ℕ → System n api.World → System n api.World → Type 0
  Delivers id s s' =
      (b : Booking) × (g : Data.User) × (status_at id s.store ≡ some b)
      × (find_unique user_id b.user_id s.store.users ≡ some g)
      × (status_at id s'.store ≡ some (delivered_booking b))
      × (find_otp api n q now g.email s'.store.otps ≡ none)

  find_otp-delete_otps :
      (email : String) (otps : List BookingOtp)
      → find_otp api n q now email (delete_otps email otps) ≡ none
  find_otp-delete_otps email otps =
      ap (q.first BookingOtp) (keep-delete_otps email otps) ∙ q.first-nil BookingOtp

  deliver-status :
      (id : ℕ) (d : Delivery) (s : Store n)
      → status_at id s ≡ some d.booking
      → find_unique booking_id id (deliver api n q now d s).bookings
        ≡ some (delivered_booking d.booking)
  deliver-status id d s h = ground (
    arith,
    find_unique-id booking_id id s.bookings h,
    find_unique-update booking_id d.booking.id id (set_status now Data.delivered) s.bookings
        (λ r. refl),
  )

  finish_delivery-Ensures :
      (fails : Bool) (id : ℕ) (d : Delivery) (transfer : Option String) (s : System n api.World)
      → status_at id s.store ≡ some d.booking
      → Ensures
          (λ s'.
            (status_at id s'.store ≡ some (delivered_booking d.booking))
            × (find_otp api n q now d.guest.email s'.store.otps ≡ none))
          (finish_delivery api n q now fails d transfer s)
  unfolding finish_delivery store_delivery
  finish_delivery-Ensures true id d transfer s p a h = ground arith
  finish_delivery-Ensures false id d transfer s p a h = (
    deliver-status id d s.store p,
    find_otp-delete_otps d.guest.email (deliver api n q now d s.store).otps,
  )

  -- A verification that returns leaves the booking DELIVERED, and no code of its guest is left
  -- that could be used again. It does so for a booking of any status, also one that is CANCELLED.
  pub verify_booking_code-Delivers :
      (fails : Bool) (id : ℕ) (otp : String) (s : System n api.World) (paid : Bool)
      → (verify_booking_code api n q now fails id otp s).0 ≡ ok paid
      → Delivers id s (verify_booking_code api n q now fails id otp s).1
  unfolding verify_booking_code
  verify_booking_code-Delivers fails id otp s =
      bind-Ensures (Delivers id s) (check_code api n q now id otp)
        (λ d. pay_seller api n q now d >>= finish_delivery api n q now fails d) s
        λ d h.
          let s' = (check_code api n q now id otp s).1 in
          bind-Ensures (Delivers id s) (pay_seller api n q now d)
            (finish_delivery api n q now fails d) s'
            λ t _ a f.
              let e = check_code-booking id otp s d h in
              let r =
                finish_delivery-Ensures fails id d t (pay_seller api n q now d s').1
                  (ap (status_at id) (pay_seller-store d s')
                    ∙ ap (λ u. status_at id u.store) (check_code-reads id otp s)
                    ∙ e)
                  a f in
              (d.booking, d.guest, e, check_code-guest id otp s d h, r.0, r.1)
