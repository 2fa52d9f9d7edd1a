-- ===== src/Events/Growth.antt =====
-- What the statements of `createEventsBulk` add to the tables, whether they answer or throw.
use Prim.Native.String.{String}
use seatwaves_backend.Common.{
  has_id, ℕ, zero, suc, ◌+◌, ◌≤◌, ◌≡◌, refl, ◌∙◌, Bool, true, false, not, ◌&&◌, List, [], ◌∷◌,
  arith, ltb, is_some, length, length-append, Bool-cases, Option-cases, inl, inr, Result, ok, err,
  Action, pure, transactional, ◌>>=◌,
}
use seatwaves_backend.Events.Data.{Details, Event, Catalog, accepts, find_seller, find_external}
use seatwaves_backend.Events.Chunks.{chunk, chunk_size, chunks_from, create_tickets}
use seatwaves_backend.Events.Service.{insert_event}
use seatwaves_backend.Events.Bulk.{
  RawTicket, KeyedTicket, raw_rows, create_raw, add_row, add_rows, fits_columns, is_taken,
}

-- No fewer tickets than before, and the same events.
abbrev pub Grows : Catalog → Result ℕ × Catalog → Type 0
Grows s r = (r.1.events ≡ s.events) × (length s.tickets ≤ length r.1.tickets)

abbrev pub Inserts : Catalog → Result Event × Catalog → Type 0
Inserts s (ok e, t) = (length t.events ≡ length s.events + 1) × (t.tickets ≡ s.tickets)
Inserts s (err e, t) = t ≡ s

pub insert_event-Inserts :
    (external : String) (seller : ℕ) (d : Details) (s : Catalog)
    → Inserts s (insert_event external seller d s)
unfolding insert_event
insert_event-Inserts external seller d s =
    elim (Bool-cases (
      is_some (find_seller seller s.users)
      && has_id s.categories d.category_id
      && not (is_some (find_external external s.events)))) [
        | inl e ↦ rw e (length-append s.events _, refl)
        | inr e ↦ rw e refl
      ]

add_row-Grows : (k : KeyedTicket) (s : Catalog) → Grows s (add_row k s)
unfolding add_row
add_row-Grows k s = elim (Bool-cases (fits_columns k.row)) [
  | inr e ↦ rw e (refl, omega arith)
  | inl e ↦ elim (Bool-cases (is_taken k.id s.tickets)) [
    | inl t ↦ rw (e, t) (refl, omega arith)
    | inr t ↦ elim (Bool-cases (accepts s.users s.events k.row)) [
      | inl a ↦ rw (e, t, a) (refl, omega (arith, length-append s.tickets (_ ∷ [])))
      | inr a ↦ rw (e, t, a) (refl, omega arith)
    ]
  ]
]

-- A statement that grows, and then the rest.
then_Grows :
    (s : Catalog) (r : Result ℕ × Catalog) (next : ℕ → Action Catalog ℕ)
    → Grows s r
    → ((k : ℕ) (t : Catalog) → Grows t (next k t))
    → Grows s (((λ _. r) >>= next) s)
then_Grows s (err e, t) next h g = h
then_Grows s (ok k, t) next h g = let l = g k t in (l.0 ∙ h.0, omega (arith, l.1, h.1))

add_rows-Grows : (rows : List KeyedTicket) (s : Catalog) → Grows s (add_rows rows s)
unfolding add_rows
add_rows-Grows [] s = (refl, omega arith)
add_rows-Grows (k ∷ ks) s =
    then_Grows s (add_row k s) (λ n. add_rows ks >>= λ m. pure (n + m)) (add_row-Grows k s)
      (λ n t.
        then_Grows t (add_rows ks t) (λ m. pure (n + m)) (add_rows-Grows ks t)
          (λ m u. (refl, omega arith)))

transactional-Grows :
    (s : Catalog) (r : Result ℕ × Catalog) → Grows s r → Grows s (transactional (λ _. r) s)
transactional-Grows s (ok k, t) h = h
transactional-Grows s (err e, t) h = (refl, omega arith)

pub create_raw-Grows :
    (b : Bool) (event : ℕ) (ts : List RawTicket) (s : Catalog) → Grows s (create_raw b event ts s)
unfolding create_raw
create_raw-Grows true event ts s = (refl, omega arith)
create_raw-Grows false event ts s = elim (Option-cases (raw_rows event ts)) [
  | inl e ↦ rw e (refl, omega arith)
  | inr (rows, e) ↦ rw e (transactional-Grows s (add_rows rows s) (add_rows-Grows rows s))
]

module _ {Row : Type 0} (create : List Row → Action Catalog ℕ)
    (g : (rows : List Row) (s : Catalog) → Grows s (create rows s)) where
  chunks_from-Grows :
      (n i added : ℕ) (rows : List Row) (s : Catalog)
      → Grows s (chunks_from create n i added rows s)
  unfolding chunks_from
  chunks_from-Grows zero i added rows s = (refl, omega arith)
  chunks_from-Grows (suc n) i added rows s = elim (Bool-cases (ltb i (length rows))) [
    | inr e ↦ rw e (refl, omega arith)
    | inl e ↦ rw e (
        then_Grows s (create (chunk i rows) s)
          (λ count. chunks_from create n (i + chunk_size) (added + count) rows) (g (chunk i rows) s)
          (λ k t. chunks_from-Grows n (i + chunk_size) (added + k) rows t))
  ]

  pub create_tickets-Grows :
      (rows : List Row) (s : Catalog) → Grows s (create_tickets create rows s)
  create_tickets-Grows [] s = (refl, omega arith)
  create_tickets-Grows (x ∷ rows) s =
      let some_rows : ltb 0 (suc (length rows)) ≡ true = ground arith in
      rw some_rows (chunks_from-Grows (length (x ∷ rows)) 0 0 (x ∷ rows) s)
