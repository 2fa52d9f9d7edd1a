-- ===== src/Events/Writing.antt =====
-- The rows of a chunk and those after it, and what the database takes of them.
use mathlib.Core.Path.{ap₂}
use mathlib.Core.Bool.{true≢false}
use mathlib.Core.List.{append_assoc, append-nil}
use seatwaves_backend.Common.{
  ℕ, zero, suc, ◌+◌, ◌≤◌, ◌≡◌, refl, ap, sym, ◌∙◌, true, false, List, [], ◌∷◌, ◌++◌, take, length,
  length-append, ltb, arith, Bool-cases, inl, inr, ok, err, failure,
}
use seatwaves_backend.Events.Data.{
  Event, Seller, NewTicket, Ticket, Catalog, ticket_of, accepts_all, number_from, insert_tickets,
  create_many,
}
use seatwaves_backend.Events.Chunks.{chunk_size, drop, chunk}

one_more : (i k : ℕ) → suc i + k ≡ suc (i + k)
one_more i k = omega arith

pub from_zero : (k : ℕ) → 0 + k ≡ k
from_zero k = omega arith

pub to_zero : (k : ℕ) → k ≡ k + 0
to_zero k = omega arith

pub shift : (i k : ℕ) → i + 1 + k ≡ i + suc k
shift i k = omega arith

module _ {ℓ} {A : Type ℓ} where
  take-drop : (k : ℕ) (xs : List A) → take k xs ++ drop k xs ≡ xs
  take-drop zero xs = refl
  take-drop (suc k) [] = refl
  take-drop (suc k) (x ∷ xs) = ap (λ t. x ∷ t) (take-drop k xs)

  drop-nil : (k : ℕ) → drop {A = A} k [] ≡ []
  drop-nil zero = refl
  drop-nil (suc k) = refl

  drop-drop : (i k : ℕ) (xs : List A) → drop (i + k) xs ≡ drop k (drop i xs)
  drop-drop zero k xs = ap (λ j. drop j xs) (from_zero k)
  drop-drop (suc i) k [] = drop-nil (suc i + k) ∙ sym (drop-nil k)
  drop-drop (suc i) k (x ∷ xs) = ap (λ j. drop j (x ∷ xs)) (one_more i k) ∙ drop-drop i k xs

  pub drop-past : (i : ℕ) (xs : List A) → length xs ≤ i → drop i xs ≡ []
  drop-past zero [] h = refl
  drop-past (suc i) [] h = refl
  drop-past zero (x ∷ xs) h = absurd (omega (arith, h))
  drop-past (suc i) (x ∷ xs) h = drop-past i xs (omega (arith, h))

  pub chunk-drop : (i : ℕ) (xs : List A) → chunk i xs ++ drop (i + chunk_size) xs ≡ drop i xs
  chunk-drop i xs =
      ap (λ t. chunk i xs ++ t) (drop-drop i chunk_size xs) ∙ take-drop chunk_size (drop i xs)

module _ (users : List Seller) (events : List Event) where
  accepts_all-append :
      (xs ys : List NewTicket)
      → accepts_all users events xs ≡ true
      → accepts_all users events (xs ++ ys) ≡ accepts_all users events ys
  accepts_all-append [] ys h = refl
  accepts_all-append (x ∷ xs) ys h = ground (arith, accepts_all-append xs ys)

  refused-append :
      (xs ys : List NewTicket)
      → accepts_all users events xs ≡ false
      → accepts_all users events (xs ++ ys) ≡ false
  refused-append [] ys h = cc
  refused-append (x ∷ xs) ys h = ground (arith, refused-append xs ys)

number_from-append :
    (i : ℕ) (xs ys : List NewTicket)
    → number_from i (xs ++ ys) ≡ number_from i xs ++ number_from (i + length xs) ys
number_from-append i [] ys = ap (λ k. number_from k ys) (to_zero i)
number_from-append i (x ∷ xs) ys =
    ap (λ t. ticket_of i x ∷ t)
      (number_from-append (i + 1) xs ys
        ∙ ap (λ k. number_from (i + 1) xs ++ number_from k ys) (shift i (length xs)))

longer : (n : ℕ) (xs ys : List NewTicket) → n + length xs + length ys ≡ n + length (xs ++ ys)
longer n xs ys = omega (arith, length-append xs ys)

pub insert_tickets-append :
    (xs ys : List NewTicket) (s : Catalog)
    → insert_tickets ys (insert_tickets xs s) ≡ insert_tickets (xs ++ ys) s
insert_tickets-append xs ys s =
    ap₂ (λ (t : List Ticket) (n : ℕ). record s { tickets = t; next_id = n })
      (append_assoc s.tickets (number_from s.next_id xs) _
        ∙ ap (λ t. s.tickets ++ t) (sym (number_from-append s.next_id xs ys)))
      (longer s.next_id xs ys)

pub insert_tickets-nil : (s : Catalog) → insert_tickets [] s ≡ s
insert_tickets-nil s =
    ap₂ (λ (t : List Ticket) (n : ℕ). record s { tickets = t; next_id = n }) (append-nil s.tickets)
      (sym (to_zero s.next_id))

module _ (s : Catalog) (rows : List NewTicket) where
  pub create_many-ok :
      accepts_all s.users s.events rows ≡ true
      → create_many rows s ≡ (ok (length rows), insert_tickets rows s)
  unfolding create_many
  create_many-ok h = rw h refl

  pub create_many-refused :
      accepts_all s.users s.events rows ≡ false → create_many rows s ≡ (err failure, s)
  unfolding create_many
  create_many-refused h = rw h refl

-- The rows of a chunk and those after it.
module _ (users : List Seller) (events : List Event) (i : ℕ) (rows : List NewTicket) where
  whole :
      accepts_all users events (chunk i rows ++ drop (i + chunk_size) rows)
      ≡ accepts_all users events (drop i rows)
  whole = ap (accepts_all users events) (chunk-drop i rows)

  pub rest-of_chunk :
      accepts_all users events (chunk i rows) ≡ true
      → accepts_all users events (drop (i + chunk_size) rows)
        ≡ accepts_all users events (drop i rows)
  rest-of_chunk h = sym (accepts_all-append users events (chunk i rows) _ h) ∙ whole

  pub accepted-chunk :
      accepts_all users events (drop i rows) ≡ true → accepts_all users events (chunk i rows) ≡ true
  accepted-chunk h = elim (Bool-cases (accepts_all users events (chunk i rows))) [
    | inl e ↦ e
    | inr e ↦
        absurd (true≢false (sym h ∙ sym whole ∙ refused-append users events (chunk i rows) _ e))
  ]

module _ {Row : Type 0} (i : ℕ) (rows : List Row) where
  pub nothing_left : ltb i (length rows) ≡ false → drop i rows ≡ []
  nothing_left h = drop-past i rows (ground (arith, h))

  pub length-drop :
      length (chunk i rows) + length (drop (i + chunk_size) rows) ≡ length (drop i rows)
  length-drop =
      sym (length-append (chunk i rows) (drop (i + chunk_size) rows))
      ∙ ap length (chunk-drop i rows)
