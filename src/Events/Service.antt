-- ===== src/Events/Service.antt =====
-- `createEvent`, `addticketToEvent`, `updateticket` and `deleteTicket`. The input is what the zod
-- schema of the call returns, or nothing where it refuses.
use Prim.Native.String.{String}
use seatwaves_backend.Common.{
  has_id, ℕ, ◌+◌, not, ◌&&◌, List, [], ◌∷◌, ◌++◌, map, Option, none, some, ◌==◌, if◌then◌else◌,
  is_some, keep, HttpError, not_acceptable, failure, ok, err, Action, pure, gets, or_throw,
  throw_if, modify, transactional, ◌>>=◌, ◌>>◌,
}
use seatwaves_backend.Orders.Data.{Metadata}
use seatwaves_backend.Database.Table.{update}
use seatwaves_backend.Events.Data.{
  DiscountType, TicketData, NewTicket, Ticket, Details, Event, Catalog, find_seller, find_event,
  find_ticket, find_external, create_many, fits,
}
use seatwaves_backend.Events.Chunks.{create_tickets}

-- `createEventScehema`
pub record EventInput : Type 0 where
  pub event_id : String
  pub details : Details
  pub tickets : List TicketData

pub record EventReply : Type 0 where
  pub event_id : ℕ
  pub tickets : ℕ

-- `event.create`: the database wants a seller, a category and an external id that is not taken.
unfoldable pub insert_event : String → ℕ → Details → Action Catalog Event
insert_event external seller_id details s =
    let e : Event = record {
      id = s.next_id;
      event_id = external;
      seller_id = seller_id;
      details = details;
    } in
    if is_some (find_seller seller_id s.users)
      && has_id s.categories details.category_id
      && not (is_some (find_external external s.events))
    then (ok e, record s { events = s.events ++ e ∷ []; next_id = s.next_id + 1 })
    else (err failure, s)

abbrev pub row : ℕ → ℕ → TicketData → NewTicket
row seller_id event_id t = record { seller_id = seller_id; event_id = event_id; data_of = t }

-- A catch that throws another exception.
abbrev pub catch_as : {S A : Type 0} → HttpError → Action S A → Action S A
catch_as e m s = let (r, t) = m s in elim r [ ok a ↦ (ok a, t) | err x ↦ (err e, t) ]

abbrev pub add_tickets_to : Event → EventInput → Action Catalog EventReply
add_tickets_to e body =
    transactional (create_tickets create_many (map (row e.seller_id e.id) body.tickets)) >>= λ n.
    pure (record { event_id = e.id; tickets = n })

abbrev pub tickets_for : ℕ → EventInput → Event → Action Catalog EventReply
tickets_for seller_id body e =
    create_tickets create_many (map (row seller_id e.id) body.tickets) >>= λ n.
    pure (record { event_id = e.id; tickets = n })

abbrev pub create_new : ℕ → EventInput → Action Catalog EventReply
create_new seller_id body =
    insert_event body.event_id seller_id body.details >>= tickets_for seller_id body

abbrev pub create_or_add : ℕ → EventInput → Option Event → Action Catalog EventReply
create_or_add seller_id body (some e) = add_tickets_to e body
create_or_add seller_id body none =
    catch_as not_acceptable (transactional (create_new seller_id body))

-- `createEvent`
unfoldable pub create_event : Option EventInput → ℕ → Action Catalog EventReply
create_event input seller_id = or_throw input not_acceptable >>= λ body.
    gets (λ (s : Catalog). find_seller seller_id s.users) >>= λ found.
    or_throw found not_acceptable >>= λ seller.
    throw_if (not (is_some seller.stripe_account_id)) not_acceptable
    >> gets (λ (s : Catalog). find_external body.event_id s.events)
    >>= λ existing. create_or_add seller_id body existing

-- The columns that `addticketToEvent` copies.
abbrev pub copied : TicketData → TicketData
copied t = record t { ticket_type = none; thumbnail = none }

-- `addticketToEvent`
unfoldable pub add_ticket : ℕ → Option TicketData → ℕ → Action Catalog ℕ
add_ticket event_id input seller_id = or_throw input not_acceptable >>= λ t.
    gets (λ (s : Catalog). find_event event_id s.events) >>= λ found.
    or_throw found not_acceptable >>= λ e. gets (λ (s : Catalog). s.next_id) >>= λ i.
    create_many (row seller_id e.id (copied t) ∷ []) >> pure i

-- `updateticketSchema`: `discount` and `discountType` have defaults.
pub record TicketUpdate : Type 0 where
  pub ticket_type : Option String
  pub seat_details : String
  pub metadata : Option Metadata
  pub price : ℕ
  pub discount : ℕ
  pub discount_type : DiscountType
  pub thumbnail : Option String

-- A field that is `undefined` is not written.
abbrev pub or_keep : {A : Type 0} → Option A → Option A → Option A
or_keep none old = old
or_keep (some a) old = some a

abbrev pub apply : TicketUpdate → Ticket → Ticket
apply u t = record t {
  data_of = record t.data_of {
    ticket_type = or_keep u.ticket_type t.data_of.ticket_type;
    seat_details = u.seat_details;
    metadata = or_keep u.metadata t.data_of.metadata;
    price = u.price;
    discount = u.discount;
    discount_type = u.discount_type;
    thumbnail = or_keep u.thumbnail t.data_of.thumbnail;
  };
}

abbrev pub ticket_key : Ticket → ℕ
ticket_key t = t.id

-- The guards that `updateticket` and `deleteTicket` share.
abbrev pub own_unsold : ℕ → ℕ → Action Catalog Ticket
own_unsold ticket_id seller_id =
    gets (λ (s : Catalog). find_ticket ticket_id s.tickets) >>= λ found.
    or_throw found not_acceptable >>= λ t.
    throw_if t.is_booked not_acceptable
    >> throw_if (not (t.seller_id == seller_id)) not_acceptable
    >> pure t

abbrev pub write_update : ℕ → TicketUpdate → Action Catalog ℕ
write_update ticket_id u =
    throw_if (not (fits u.price && fits u.discount)) failure
    >> modify
        (λ (s : Catalog). record s { tickets = update ticket_key ticket_id (apply u) s.tickets })
    >> pure ticket_id

-- `updateticket`
unfoldable pub update_ticket : ℕ → Option TicketUpdate → ℕ → Action Catalog ℕ
update_ticket ticket_id input seller_id = or_throw input not_acceptable >>= λ u.
    own_unsold ticket_id seller_id >>= λ t. write_update ticket_id u

abbrev pub write_delete : ℕ → Action Catalog ℕ
write_delete ticket_id =
    modify (λ (s : Catalog). record s {
      tickets = keep (λ (t : Ticket). not (ticket_key t == ticket_id)) s.tickets;
    })
    >> pure ticket_id

-- `deleteTicket`
unfoldable pub delete_ticket : ℕ → ℕ → Action Catalog ℕ
delete_ticket ticket_id seller_id = own_unsold ticket_id seller_id >>= λ t. write_delete ticket_id
