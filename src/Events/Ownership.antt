-- ===== src/Events/Ownership.antt =====
-- Whose tickets a seller's calls can change.
use seatwaves_backend.Common.{
  ℕ, ◌≡◌, ◌≢◌, ◌⊎◌, refl, ap, sym, ◌∙◌, true, false, ◌&&◌, List, [], ◌∷◌, Option, none, some, arith,
  ◌==◌, Bool-cases, Option-cases, inl, inr, Action, ok, err, not_acceptable,
}
use mathlib.Core.Bool.{true≢false, false≢true}
use mathlib.Core.Option.{some_inj}
use seatwaves_backend.Database.Table.{find_unique-update_ne, find_unique-keep, find_unique-append}
use seatwaves_backend.Common.Keeps.{
  Keeps, pure-Keeps, gets-Keeps, or_throw-Keeps, bind-Keeps, bind_ok-keeps, bind_err-keeps,
}
use seatwaves_backend.Events.Data.{
  TicketData, Ticket, NewTicket, Catalog, find_ticket, find_event, accepts_all, create_many,
  number_from, fits,
}
use seatwaves_backend.Events.Service.{
  TicketUpdate, apply, ticket_key, row, write_update, write_delete, copied, add_ticket,
  update_ticket, delete_ticket, own_unsold,
}

-- A call that a seller makes.
pub data TicketCall : Type 0 where
  add : ℕ → Option TicketData → TicketCall
  change : ℕ → Option TicketUpdate → TicketCall
  remove : ℕ → TicketCall

unfoldable pub ticket_call : ℕ → TicketCall → Action Catalog ℕ
ticket_call seller (add event input) = add_ticket event input seller
ticket_call seller (change i input) = update_ticket i input seller
ticket_call seller (remove i) = delete_ticket i seller

unfoldable pub ticket_calls : ℕ → List TicketCall → Catalog → Catalog
ticket_calls seller [] s = s
ticket_calls seller (c ∷ calls) s = ticket_calls seller calls (ticket_call seller c s).1

-- A ticket that a seller may not touch.
abbrev pub IsForeign : ℕ → Ticket → Type 0
IsForeign seller t = (t.is_booked ≡ true) ⊎ ((t.seller_id == seller) ≡ false)

ne_of : (i j : ℕ) → (i == j) ≡ false → i ≢ j
ne_of i j h = ground (arith, h)

flip_test : (i j : ℕ) → (i == j) ≡ false → (j == i) ≡ false
flip_test i j h = ground (arith, h)

-- The ticket that a call may change, which is not foreign, or nothing but an exception.
module _ (i seller : ℕ) (s : Catalog) where
  abbrev IsOwn : Ticket → Type 0
  IsOwn x =
      (own_unsold i seller s ≡ (ok x, s))
      × (find_ticket i s.tickets ≡ some x)
      × (x.is_booked ≡ false)
      × ((x.seller_id == seller) ≡ true)

  own_unsold-cases : ((x : Ticket) × IsOwn x) ⊎ (own_unsold i seller s ≡ (err not_acceptable, s))
  own_unsold-cases = elim (Option-cases (find_ticket i s.tickets)) [
    | inl e ↦ inr (rw e refl)
    | inr (x, e) ↦ elim (Bool-cases x.is_booked) [
      | inl b ↦ inr (rw (e, b) refl)
      | inr b ↦ elim (Bool-cases (x.seller_id == seller)) [
        | inl o ↦ inl (x, (rw (e, b, o) refl, e, b, o))
        | inr o ↦ inr (rw (e, b, o) refl)
      ]
    ]
  ]

  own-foreign :
      (j : ℕ) {x t : Ticket}
      → IsOwn x
      → find_ticket j s.tickets ≡ some t
      → IsForeign seller t
      → (i == j) ≡ false
  own-foreign j {x} {t} own h foreign = elim (Bool-cases (i == j)) [
    | inr e ↦ e
    | inl e ↦
        let same : i ≡ j = ground (arith, e) in
        let one : x ≡ t = some_inj.0 (sym own.1 ∙ ap (λ k. find_ticket k s.tickets) same ∙ h) in
        absurd (elim foreign [
          | inl b ↦ false≢true (sym own.2 ∙ ap (λ (y : Ticket). y.is_booked) one ∙ b)
          | inr o ↦ true≢false (sym own.3 ∙ ap (λ (y : Ticket). y.seller_id == seller) one ∙ o)
        ])
  ]

-- A ticket that a seller may not touch stays as it is.
module _ (seller j : ℕ) (t : Ticket) where
  abbrev Stays : Catalog → Type 0
  Stays s = find_ticket j s.tickets ≡ some t

  create_many-Stays : (rows : List NewTicket) → Keeps Stays (create_many rows)
  unfolding create_many find_ticket
  create_many-Stays rows = record {
    keeps = λ s h. elim (Bool-cases (accepts_all s.users s.events rows)) [
      | inl a ↦ rw a (find_unique-append ticket_key j s.tickets (number_from s.next_id rows) h)
      | inr a ↦ rw a h
    ];
  }

  add-Stays : (event : ℕ) (input : Option TicketData) → Keeps Stays (add_ticket event input seller)
  unfolding add_ticket
  add-Stays event input = bind-Keeps _ _ (or_throw-Keeps input not_acceptable) (λ d.
      bind-Keeps _ _ (gets-Keeps (λ (s : Catalog). find_event event s.events)) (λ found.
        bind-Keeps _ _ (or_throw-Keeps found not_acceptable) (λ e.
          bind-Keeps _ _ (gets-Keeps (λ (s : Catalog). s.next_id)) (λ i.
            bind-Keeps _ _ (create_many-Stays (row seller e.id (copied d) ∷ []))
              (λ n. pure-Keeps i)))))

  written :
      (i : ℕ) (u : TicketUpdate) (s : Catalog)
      → Stays s
      → (i == j) ≡ false
      → Stays (write_update i u s).1
  unfolding find_ticket
  written i u s h apart = elim (Bool-cases (fits u.price && fits u.discount)) [
    | inl f ↦
        rw f (
          find_unique-update_ne ticket_key i j (apply u) s.tickets (λ x. refl) (ne_of i j apart)
          ∙ h)
    | inr f ↦ rw f h
  ]

  change-Stays :
      IsForeign seller t
      → (i : ℕ) (input : Option TicketUpdate) → Keeps Stays (update_ticket i input seller)
  unfolding update_ticket find_ticket
  change-Stays foreign i none = record { keeps = λ s h. h }
  change-Stays foreign i (some u) = record {
    keeps = λ s h. elim (own_unsold-cases i seller s) [
      | inr e ↦ bind_err-keeps Stays (own_unsold i seller) (λ x. write_update i u) s e h
      | inl (x, own) ↦
          bind_ok-keeps Stays (own_unsold i seller) (λ x. write_update i u) s own.0
            (written i u s h (own-foreign i seller s j own h foreign))
    ];
  }

  remove-Stays : IsForeign seller t → (i : ℕ) → Keeps Stays (delete_ticket i seller)
  unfolding delete_ticket find_ticket
  remove-Stays foreign i = record {
    keeps = λ s h. elim (own_unsold-cases i seller s) [
      | inr e ↦ bind_err-keeps Stays (own_unsold i seller) (λ x. write_delete i) s e h
      | inl (x, own) ↦
          bind_ok-keeps Stays (own_unsold i seller) (λ x. write_delete i) s own.0
            (find_unique-keep ticket_key i j s.tickets
                (flip_test i j (own-foreign i seller s j own h foreign))
              ∙ h)
    ];
  }

  call-Stays : IsForeign seller t → (c : TicketCall) → Keeps Stays (ticket_call seller c)
  unfolding ticket_call
  call-Stays foreign (add event input) = add-Stays event input
  call-Stays foreign (change i input) = change-Stays foreign i input
  call-Stays foreign (remove i) = remove-Stays foreign i

-- No sequence of calls by which a seller adds, changes and removes tickets, whether they succeed or
-- throw, changes or removes a ticket that is booked or is another seller's.
pub ticket_calls-find_ticket :
    (seller j : ℕ) (calls : List TicketCall) (s : Catalog) (t : Ticket)
    → find_ticket j s.tickets ≡ some t
    → IsForeign seller t
    → find_ticket j (ticket_calls seller calls s).tickets ≡ some t
unfolding ticket_calls
ticket_calls-find_ticket seller j [] s t h foreign = h
ticket_calls-find_ticket seller j (c ∷ calls) s t h foreign =
    ticket_calls-find_ticket seller j calls (ticket_call seller c s).1 t
      ((call-Stays seller j t foreign c).keeps s h) foreign
