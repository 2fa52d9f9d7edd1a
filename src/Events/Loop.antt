-- ===== src/Events/Loop.antt =====
-- Writing the tickets of an event in chunks, inside a transaction.
use mathlib.Core.Path.{ap₂}
use mathlib.Core.Bool.{true≢false}
use seatwaves_backend.Common.{
  ◌⊎◌, ℕ, zero, suc, ◌+◌, ◌≤◌, ◌≡◌, ap, sym, ◌∙◌, true, false, List, length, ltb, arith, Bool-cases,
  inl, inr, transactional, ok, err, failure, bind-ok, bind-err, transactional-ok, transactional-err,
}
use seatwaves_backend.Events.Data.{NewTicket, Catalog, accepts_all, insert_tickets, create_many}
use seatwaves_backend.Events.Chunks.{chunk_size, drop, chunk, chunks_from, create_in_chunks}
use seatwaves_backend.Events.Writing.{
  drop-past, insert_tickets-append, insert_tickets-nil, create_many-ok, create_many-refused,
  rest-of_chunk, accepted-chunk, nothing_left, length-drop, chunk-drop, from_zero, to_zero,
}

-- The loop from a row on, when the database takes every row that is left.
chunks_from-ok :
    (n i added : ℕ) (rows : List NewTicket) (s : Catalog)
    → length rows ≤ i + n
    → accepts_all s.users s.events (drop i rows) ≡ true
    → chunks_from create_many n i added rows s
      ≡ (ok (added + length (drop i rows)), insert_tickets (drop i rows) s)
unfolding chunks_from
chunks_from-ok zero i added rows s le h =
    rw (drop-past i rows (omega (arith, le)))
      (ap₂ (λ (k : ℕ) (t : Catalog). (ok k, t)) (to_zero added) (sym (insert_tickets-nil s)))
chunks_from-ok (suc n) i added rows s le h = elim (Bool-cases (ltb i (length rows))) [
  | inr e ↦
      rw (e, nothing_left i rows e)
        (ap₂ (λ (k : ℕ) (t : Catalog). (ok k, t)) (to_zero added) (sym (insert_tickets-nil s)))
  | inl e ↦
      let now = accepted-chunk s.users s.events i rows h in
      let later = rest-of_chunk s.users s.events i rows now ∙ h in
      rw e (
        bind-ok (create_many (chunk i rows))
          (λ count. chunks_from create_many n (i + chunk_size) (added + count) rows) s
          (create_many-ok s (chunk i rows) now)
        ∙ chunks_from-ok n (i + chunk_size) (added + length (chunk i rows)) rows
            (insert_tickets (chunk i rows) s) (omega (arith, le)) later
        ∙ ap₂ (λ (k : ℕ) (t : Catalog). (ok k, t)) (omega (arith, length-drop i rows))
            (insert_tickets-append (chunk i rows) (drop (i + chunk_size) rows) s
              ∙ ap (λ r. insert_tickets r s) (chunk-drop i rows)))
]

-- The loop when it does not.
chunks_from-refused :
    (n i added : ℕ) (rows : List NewTicket) (s : Catalog)
    → length rows ≤ i + n
    → accepts_all s.users s.events (drop i rows) ≡ false
    → (t : Catalog) × (chunks_from create_many n i added rows s ≡ (err failure, t))
unfolding chunks_from
chunks_from-refused zero i added rows s le h = absurd (
    true≢false (ap (accepts_all s.users s.events) (sym (drop-past i rows (omega (arith, le)))) ∙ h))
chunks_from-refused (suc n) i added rows s le h = elim (Bool-cases (ltb i (length rows))) [
  | inr e ↦
      absurd (true≢false (ap (accepts_all s.users s.events) (sym (nothing_left i rows e)) ∙ h))
  | inl e ↦
      let body = λ (count : ℕ). chunks_from create_many n (i + chunk_size) (added + count) rows in
      elim (Bool-cases (accepts_all s.users s.events (chunk i rows))) [
        | inr off ↦ (
          s,
          rw e (
              bind-err (create_many (chunk i rows)) body s
                (create_many-refused s (chunk i rows) off)),
        )
        | inl now ↦
            let (t, later) =
              chunks_from-refused n (i + chunk_size) (added + length (chunk i rows)) rows
                (insert_tickets (chunk i rows) s) (omega (arith, le))
                (rest-of_chunk s.users s.events i rows now ∙ h) in
            (
              t,
              rw e (
                  bind-ok (create_many (chunk i rows)) body s (create_many-ok s (chunk i rows) now)
                  ∙ later),
            )
      ]
]

-- The loop writes every row, or throws.
pub create_in_chunks-cases :
    (rows : List NewTicket) (s : Catalog)
    → ((accepts_all s.users s.events rows ≡ true)
        × (create_in_chunks rows s ≡ (ok (length rows), insert_tickets rows s)))
      ⊎ ((accepts_all s.users s.events rows ≡ false)
          × ((t : Catalog) × (create_in_chunks rows s ≡ (err failure, t))))
create_in_chunks-cases rows s = elim (Bool-cases (accepts_all s.users s.events rows)) [
  | inl e ↦ inl (
    e,
    chunks_from-ok (length rows) 0 0 rows s (omega arith) e
        ∙ ap (λ (k : ℕ). (ok k, insert_tickets rows s)) (from_zero (length rows)),
  )
  | inr e ↦ inr (e, chunks_from-refused (length rows) 0 0 rows s (omega arith) e)
]

-- In a transaction, the loop that writes the tickets in chunks of two hundred does what one statement
-- with all of them does, whatever their number: it writes them all and counts them, or throws and
-- writes none.
pub create_in_chunks-create_many :
    (rows : List NewTicket) (s : Catalog)
    → transactional (create_in_chunks rows) s ≡ create_many rows s
create_in_chunks-create_many rows s = elim (create_in_chunks-cases rows s) [
  | inl (e, written) ↦
      transactional-ok (create_in_chunks rows) s written ∙ sym (create_many-ok s rows e)
  | inr (e, (t, refused)) ↦
      transactional-err (create_in_chunks rows) s refused ∙ sym (create_many-refused s rows e)
]
