-- ===== src/Bookings/Laws/Code.antt =====
-- `generateMixedOTP` of src/booking/booking.service.ts.
use seatwaves_backend.Common.{
  ℕ, zero, suc, ◌+◌, ◌≤◌, ◌<◌, ◌≡◌, refl, ◌⊎◌, List, [], ◌∷◌, ◌++◌, length, All, All-append,
  Bool-cases, inl, inr, ltb, true, ◌-◌, length-append, arith,
}
use seatwaves_backend.Bookings.Code.{char_at, append_char, otp_loop, generate_mixed_otp}

-- The code of a capital letter or of a digit.
abbrev pub IsCodeChar : ℕ → Type 0
IsCodeChar c = ((65 ≤ c) × (c ≤ 90)) ⊎ ((48 ≤ c) × (c ≤ 57))

abbrev IsText : ℕ → List ℕ → Type 0
IsText n otp = (length otp ≡ n) × All IsCodeChar otp

below-digit : (i : ℕ) → i < 36 → ltb i 36 ≡ true
below-digit i h = ground arith

push-IsText :
    (n c : ℕ) (otp : List ℕ) → IsCodeChar c → IsText n otp → IsText (suc n) (otp ++ c ∷ [])
push-IsText n c otp h t =
    (omega (arith, length-append otp (c ∷ []), t.0), All-append IsCodeChar otp (c ∷ []) t.1 (h, tt))

append_char-IsText :
    (n i : ℕ) (otp : List ℕ) → i < 36 → IsText n otp → IsText (suc n) (append_char otp (char_at i))
append_char-IsText n i otp h t = elim (Bool-cases (ltb i 26)) [
  | inl e ↦ rw e (push-IsText n (65 + i) otp (ground arith) t)
  | inr e ↦ rw (e, below-digit i h) (push-IsText n (48 + (i - 26)) otp (ground arith) t)
]

otp_loop-IsText :
    (draw : ℕ → ℕ) (rounds i n : ℕ) (otp : List ℕ)
    → ((j : ℕ) → draw j < 36)
    → IsText n otp
    → IsText (rounds + n) (otp_loop draw rounds i otp)
unfolding otp_loop
otp_loop-IsText draw zero i n otp h t = (omega (arith, t.0), t.1)
otp_loop-IsText draw (suc r) i n otp h t =
    let u =
      otp_loop-IsText draw r (i + 1) (suc n) (append_char otp (char_at (draw i))) h
        (append_char-IsText n (draw i) otp (h i) t) in
    (omega (arith, u.0), u.1)

-- The code has as many characters as asked for, each of them a capital letter or a digit, whatever
-- the random draws below 36 are.
pub generate_mixed_otp-IsText :
    (draw : ℕ → ℕ) (len : ℕ)
    → ((j : ℕ) → draw j < 36)
    → (length (generate_mixed_otp draw len) ≡ len) × All IsCodeChar (generate_mixed_otp draw len)
unfolding generate_mixed_otp
generate_mixed_otp-IsText draw len h =
    let u = otp_loop-IsText draw len 0 0 [] h (refl, tt) in (omega (arith, u.0), u.1)
