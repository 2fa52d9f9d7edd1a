-- ===== src/Events/Creation.antt =====
-- What `createEvent` leaves behind: everything or nothing.
use Prim.Native.String.{String}
use text.Mathlib.Text.{◌==◌ as str_eq}
use seatwaves_backend.Common.{
  has_id, ℕ, suc, ◌+◌, ◌≡◌, ◌⊎◌, refl, ap, sym, ◌∙◌, true, not, ◌&&◌, List, [], ◌∷◌, ◌++◌, map,
  none, some, arith, ltb, is_some, length, Bool-cases, Option-cases, inl, inr, Result, ok, err,
  HttpError, Action, failure, not_acceptable, subst, pure, transactional, bind-ok, bind-err,
  transactional-ok, transactional-err,
}
use seatwaves_backend.Events.Data.{
  Event, NewTicket, Catalog, find_seller, find_external, number_from, insert_tickets, create_many,
}
use seatwaves_backend.Events.Writing.{insert_tickets-nil}
use seatwaves_backend.Events.Service.{
  EventInput, EventReply, row, tickets_for, insert_event, add_tickets_to, create_new, create_event,
  catch_as,
}
use seatwaves_backend.Events.Chunks.{create_tickets}
use seatwaves_backend.Events.Loop.{create_in_chunks-cases}
use text.Mathlib.TextEquality.{eq_iff}

-- What a call that answered has done, for the event it answered with: the tickets of the input are in
-- the table, for the seller of the event, after all the others.
abbrev pub IsStored : EventInput → EventReply → Catalog → Catalog → Type 0
IsStored body reply s t =
    (e : Event) × (find_external body.event_id t.events ≡ some e)
    × (reply.event_id ≡ e.id)
    × (reply.tickets ≡ length body.tickets)
    × ((n : ℕ) × (t.tickets ≡ s.tickets ++ number_from n (map (row e.seller_id e.id) body.tickets)))

-- An answer with the tickets stored, or an exception with nothing written.
abbrev pub AllOrNothing : EventInput → Catalog → Result EventReply × Catalog → Type 0
AllOrNothing body s (ok reply, t) = IsStored body reply s t
AllOrNothing body s (err e, t) = t ≡ s

create_tickets-cases :
    (rows : List NewTicket) (s : Catalog)
    → (create_tickets create_many rows s ≡ (ok (length rows), insert_tickets rows s))
      ⊎ ((t : Catalog) × (create_tickets create_many rows s ≡ (err failure, t)))
create_tickets-cases [] s = inl (ap (λ t. (ok 0, t)) (sym (insert_tickets-nil s)))
create_tickets-cases (x ∷ xs) s =
    let some_rows : ltb 0 (suc (length xs)) ≡ true = ground arith in
    elim (create_in_chunks-cases (x ∷ xs) s) [
      | inl (e, written) ↦ inl (rw some_rows written)
      | inr (e, (t, refused)) ↦ inr (t, rw some_rows refused)
    ]

length-map : {A B : Type 0} (f : A → B) (xs : List A) → length (map f xs) ≡ length xs
length-map f [] = refl
length-map f (x ∷ xs) = ap suc (length-map f xs)

find_external-append :
    (i : String) (es : List Event) (e : Event)
    → find_external i es ≡ none
    → str_eq e.event_id i ≡ true
    → find_external i (es ++ e ∷ []) ≡ some e
unfolding find_external
find_external-append i [] e h k = rw k refl
find_external-append i (x ∷ es) e h k = ground (arith, find_external-append i es e)

-- Tickets for an event that is there.
add_tickets_to-AllOrNothing :
    (e : Event) (body : EventInput) (s : Catalog)
    → find_external body.event_id s.events ≡ some e
    → AllOrNothing body s (add_tickets_to e body s)
add_tickets_to-AllOrNothing e body s found =
    let rows = map (row e.seller_id e.id) body.tickets in
    let told = λ (n : ℕ). pure {S = Catalog} (record { event_id = e.id; tickets = n }) in
    elim (create_tickets-cases rows s) [
      | inl written ↦
          subst (AllOrNothing body s)
            (sym (
              bind-ok (transactional (create_tickets create_many rows)) told s
                (transactional-ok (create_tickets create_many rows) s written)))
            (e, found, refl, length-map (row e.seller_id e.id) body.tickets, (s.next_id, refl))
      | inr (t, refused) ↦
          subst (AllOrNothing body s)
            (sym (
              bind-err (transactional (create_tickets create_many rows)) told s
                (transactional-err (create_tickets create_many rows) s refused)))
            refl
    ]

module _ (seller : ℕ) (body : EventInput) (s : Catalog) where
  abbrev new_event : Event
  new_event = record {
    id = s.next_id;
    event_id = body.event_id;
    seller_id = seller;
    details = body.details;
  }

  abbrev with_event : Catalog
  with_event = record s { events = s.events ++ new_event ∷ []; next_id = s.next_id + 1 }

  insert_event-cases :
      (insert_event body.event_id seller body.details s ≡ (ok new_event, with_event))
      ⊎ (insert_event body.event_id seller body.details s ≡ (err failure, s))
  unfolding insert_event
  insert_event-cases =
      elim (Bool-cases (
        is_some (find_seller seller s.users)
        && has_id s.categories body.details.category_id
        && not (is_some (find_external body.event_id s.events)))) [
          | inl e ↦ inl (rw e refl)
          | inr e ↦ inr (rw e refl)
        ]

  abbrev insert : Action Catalog Event
  insert = insert_event body.event_id seller body.details

  abbrev rows : List NewTicket
  rows = map (row seller s.next_id) body.tickets

  abbrev told : ℕ → Action Catalog EventReply
  told n = pure (record { event_id = s.next_id; tickets = n })

  -- The tickets of an event that is new.
  create_new-AllOrNothing :
      find_external body.event_id s.events ≡ none
      → AllOrNothing body s (transactional (create_new seller body) s)
  create_new-AllOrNothing absent = elim insert_event-cases [
    | inr refused ↦
        subst (AllOrNothing body s)
          (sym (
            transactional-err (create_new seller body) s
              (bind-err insert (tickets_for seller body) s refused)))
          refl
    | inl inserted ↦ elim (create_tickets-cases rows with_event) [
      | inr (t, refused) ↦
          subst (AllOrNothing body s)
            (sym (
              transactional-err (create_new seller body) s (
                bind-ok insert (tickets_for seller body) s inserted
                ∙ bind-err (create_tickets create_many rows) told with_event refused)))
            refl
      | inl written ↦
          subst (AllOrNothing body s)
            (sym (
              transactional-ok (create_new seller body) s (
                bind-ok insert (tickets_for seller body) s inserted
                ∙ bind-ok (create_tickets create_many rows) told with_event written)))
            (
              new_event,
              find_external-append body.event_id s.events new_event absent
                  ((eq_iff body.event_id body.event_id).1 refl),
              refl,
              length-map (row seller s.next_id) body.tickets,
              (s.next_id + 1, refl),
            )
    ]
  ]

catch_as-AllOrNothing :
    (body : EventInput) (s : Catalog) (e : HttpError) (r : Result EventReply × Catalog)
    → AllOrNothing body s r
    → AllOrNothing body s (catch_as e (λ _. r) s)
catch_as-AllOrNothing body s e (ok a, t) h = h
catch_as-AllOrNothing body s e (err x, t) h = h

-- `createEvent` answers only when the event of the input's external id is there, with every ticket of
-- the input added behind all the others for the seller of the event, and counted; when it throws,
-- nothing at all was written.
pub create_event-AllOrNothing :
    (body : EventInput) (seller : ℕ) (s : Catalog)
    → AllOrNothing body s (create_event (some body) seller s)
unfolding create_event
create_event-AllOrNothing body seller s = elim (Option-cases (find_seller seller s.users)) [
  | inl e ↦ rw e refl
  | inr (u, e) ↦ elim (Bool-cases (is_some u.stripe_account_id)) [
    | inr o ↦ rw (e, o) refl
    | inl o ↦ elim (Option-cases (find_external body.event_id s.events)) [
      | inr (x, f) ↦ rw (e, o, f) (add_tickets_to-AllOrNothing x body s f)
      | inl f ↦
          rw (e, o, f)
            (catch_as-AllOrNothing body s not_acceptable (transactional (create_new seller body) s)
              (create_new-AllOrNothing seller body s f))
    ]
  ]
]
