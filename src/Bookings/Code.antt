-- ===== src/Bookings/Code.antt =====
-- `generateBookingCode` and `generateMixedOTP` of src/booking/booking.service.ts.
use Prim.Native.String.{String}
use text.Mathlib.Text.{◌==◌ as str_eq}
use seatwaves_backend.Common.{
  ℕ, zero, suc, ◌+◌, ◌-◌, ◌++◌, ltb, if◌then◌else◌, not, List, [], ◌∷◌, Option, none, some, keep,
  gets, ◌>>=◌, ◌>>◌, or_throw, modify, not_found, failure,
}
use seatwaves_backend.Database.Table.{find_unique}
use seatwaves_backend.Orders.Data.{User, booking_id, user_id}
use seatwaves_backend.Orders.Store.{Store, Handler, BookingOtp, notification, mail, send}

-- `userOtp.deleteMany({ where: { email, type: BOOKING } })`
abbrev pub delete_otps : String → List BookingOtp → List BookingOtp
delete_otps email otps = keep (λ o. not (str_eq o.email email)) otps

abbrev pub ten_minutes : ℕ
ten_minutes = 600_000

-- The code replaces every earlier one of the email.
abbrev pub replace_otp : {Number : Type 0} → ℕ → String → User → Store Number → Store Number
replace_otp now otp u s = record s {
  otps =
      record { email = u.email; otp = otp; expires_at = some (now + ten_minutes) }
      ∷ delete_otps u.email s.otps;
}

-- `generateBookingCode` with the code that `generateMixedOTP(6)` returned.
unfoldable pub generate_booking_code : {Number : Type 0} → ℕ → String → ℕ → Handler Number
generate_booking_code now otp id = do
  bookings ← gets (λ s. s.bookings)
  b ← or_throw (find_unique booking_id id bookings) not_found
  users ← gets (λ s. s.users)
  u ← or_throw (find_unique user_id b.user_id users) failure
  modify (replace_otp now otp u)
  modify (send (mail u.id "Booking Verification Code"))
  modify (send (notification u.id "Booking OTP"))

-- The characters of `chars`, in order: the letters A to Z, then the digits; '' beyond the end.
abbrev pub char_at : ℕ → Option ℕ
char_at i = if ltb i 26 then some (65 + i) else if ltb i 36 then some (48 + (i - 26)) else none

abbrev pub append_char : List ℕ → Option ℕ → List ℕ
append_char otp none = otp
append_char otp (some c) = otp ++ c ∷ []

-- The loop of `generateMixedOTP`, as character codes; `draw i` is
-- `Math.floor(Math.random() * chars.length)` in round `i`.
unfoldable pub otp_loop : (ℕ → ℕ) → ℕ → ℕ → List ℕ → List ℕ
otp_loop draw zero i otp = otp
otp_loop draw (suc rounds) i otp = otp_loop draw rounds (i + 1) (append_char otp (char_at (draw i)))

-- `generateMixedOTP`
unfoldable pub generate_mixed_otp : (ℕ → ℕ) → ℕ → List ℕ
unfolding otp_loop
generate_mixed_otp draw len = otp_loop draw len 0 []
