-- ===== src/Events/Bulk.antt =====
-- `createEventsBulk`. An element of the input is what the caller sent: nothing checks it before the
-- database does. A part that is missing or that prisma refuses stands as nothing.
use Prim.Native.String.{String}
use seatwaves_backend.Common.{
  ℕ, ◌+◌, Bool, false, List, [], ◌∷◌, ◌++◌, Option, none, some, length, not_acceptable, failure,
  Result, ok, err, Action, pure, transactional, is_some, not, ◌&&◌, if◌then◌else◌, gets, or_throw,
  throw_if, modify, ◌>>=◌, ◌>>◌,
}
use seatwaves_backend.Events.Data.{
  TicketData, NewTicket, Ticket, Details, Event, Catalog, find_external, find_ticket, ticket_of,
  accepts, fits,
}
use seatwaves_backend.Events.Service.{insert_event}
use seatwaves_backend.Events.Chunks.{create_tickets}

-- The keys of an element are copied: a ticket may bring an id of its own, and say that it is booked.
pub record RawTicket : Type 0 where
  pub id : Option ℕ
  pub seller_id : Option ℕ
  pub is_booked : Bool
  pub data_of : Option TicketData

-- A row for `createMany`, with the id that the caller sent.
pub record KeyedTicket : Type 0 where
  pub id : Option ℕ
  pub is_booked : Bool
  pub row : NewTicket

-- `has_meta_data` says that the element has the key `metaData`.
pub record RawEvent : Type 0 where
  pub event_id : Option String
  pub seller_id : Option ℕ
  pub details : Option Details
  pub tickets : List RawTicket
  pub has_meta_data : Bool

pub record Summary : Type 0 where
  pub created : ℕ
  pub updated_existing : ℕ
  pub tickets_created : ℕ
  pub tickets_added_to_existing : ℕ
  pub skipped : ℕ
  pub event_ids : List ℕ
  pub errors : List ℕ

pub record Work : Type 0 where
  pub catalog : Catalog
  pub summary : Summary

-- A call on the tables.
abbrev pub on_catalog : {A : Type 0} → Action Catalog A → Action Work A
on_catalog m w = let (r, c) = m w.catalog in (r, record w { catalog = c })

abbrev pub count_up : (Summary → Summary) → Action Work (Unit {0})
count_up f = modify (λ (w : Work). record w { summary = f w.summary })

-- The rows for `createMany`, which wants a seller and the columns of each.
abbrev pub raw_row : ℕ → Option ℕ → Option TicketData → Option NewTicket
raw_row event (some s) (some d) = some (record { seller_id = s; event_id = event; data_of = d })
raw_row event _ _ = none

abbrev pub keyed : RawTicket → Option NewTicket → Option KeyedTicket
keyed t none = none
keyed t (some r) = some (record { id = t.id; is_booked = t.is_booked; row = r })

abbrev pub join_row : Option KeyedTicket → Option (List KeyedTicket) → Option (List KeyedTicket)
join_row (some t) (some ts) = some (t ∷ ts)
join_row _ _ = none

abbrev pub raw_rows : ℕ → List RawTicket → Option (List KeyedTicket)
raw_rows event [] = some []
raw_rows event (t ∷ ts) =
    join_row (keyed t (raw_row event t.seller_id t.data_of)) (raw_rows event ts)

-- The id of the new row, and the counter after it.
abbrev pub key_of : Option ℕ → ℕ → ℕ
key_of none next = next
key_of (some i) next = i

abbrev pub counter_after : Option ℕ → ℕ → ℕ
counter_after none next = next + 1
counter_after (some i) next = next + i + 1

abbrev pub is_taken : Option ℕ → List Ticket → Bool
is_taken none tickets = false
is_taken (some i) tickets = is_some (find_ticket i tickets)

abbrev pub insert_keyed : KeyedTicket → Catalog → Catalog
insert_keyed k s = record s {
  tickets =
      s.tickets
      ++ record (ticket_of (key_of k.id s.next_id) k.row) { is_booked = k.is_booked } ∷ [];
  next_id = counter_after k.id s.next_id;
}

abbrev pub fits_columns : NewTicket → Bool
fits_columns t = fits t.data_of.price && fits t.data_of.discount

-- One row of `createMany({ data, skipDuplicates: true })`: a row whose id is taken is skipped before
-- its keys are looked at.
unfoldable pub add_row : KeyedTicket → Action Catalog ℕ
add_row k s =
    if not (fits_columns k.row)
    then (err failure, s)
    else if is_taken k.id s.tickets
    then (ok 0, s)
    else if accepts s.users s.events k.row
    then (ok 1, insert_keyed k s)
    else (err failure, s)

unfoldable pub add_rows : List KeyedTicket → Action Catalog ℕ
add_rows [] = pure 0
add_rows (k ∷ ks) = add_row k >>= λ n. add_rows ks >>= λ m. pure (n + m)

-- `createMany` of a chunk: prisma refuses the key `metaData`, and a row without its columns.
unfoldable pub create_raw : Bool → ℕ → List RawTicket → Action Catalog ℕ
unfolding add_rows
create_raw has_meta_data event ts =
    throw_if has_meta_data failure >> or_throw (raw_rows event ts) failure >>= λ rows.
    transactional (add_rows rows)

-- The columns that the bulk upload copies.
abbrev pub bulk_details : Details → Details
bulk_details d = record d {
  image = none;
  city = none;
  state = none;
  address = none;
  country = none;
  timezone = none;
  seatmap_image = none;
  venue_image = none;
  latitude = none;
  longitude = none;
  origin_url = none;
}

-- Tickets for an event that is there.
abbrev pub add_existing : RawEvent → Event → Action Work (Unit {0})
add_existing ev e =
    on_catalog (create_tickets (create_raw ev.has_meta_data e.id) ev.tickets)
    >> count_up (λ s. record s {
      tickets_added_to_existing = s.tickets_added_to_existing + length ev.tickets;
    })
    >> count_up (λ s. record s { updated_existing = s.updated_existing + 1 })

-- An event that is new.
abbrev pub add_new : RawEvent → String → Action Work (Unit {0})
add_new ev external = or_throw ev.seller_id failure >>= λ seller.
    or_throw ev.details failure >>= λ details.
    on_catalog (insert_event external seller (bulk_details details)) >>= λ e.
    count_up (λ s. record s { created = s.created + 1; event_ids = s.event_ids ++ e.id ∷ [] })
    >> on_catalog (create_tickets (create_raw false e.id) ev.tickets)
    >> count_up (λ s. record s { tickets_created = s.tickets_created + length ev.tickets })

abbrev pub add_or_new : RawEvent → String → Option Event → Action Work (Unit {0})
add_or_new ev external (some e) = add_existing ev e
add_or_new ev external none = add_new ev external

-- The body of the loop; prisma refuses to look for an event without an external id.
unfoldable pub upload_one : RawEvent → Action Work (Unit {0})
upload_one ev = or_throw ev.event_id failure >>= λ external.
    gets (λ (w : Work). find_external external w.catalog.events) >>= λ existing.
    add_or_new ev external existing

-- The catch of the body.
abbrev pub caught : ℕ → Result (Unit {0}) × Work → Work
caught i (ok u, w) = w
caught i (err e, w) = record w {
  summary = record w.summary {
    skipped = w.summary.skipped + 1;
    errors = w.summary.errors ++ i ∷ [];
  };
}

unfoldable pub upload_from : ℕ → List RawEvent → Work → Work
upload_from i [] w = w
upload_from i (ev ∷ evs) w = upload_from (i + 1) evs (caught i (upload_one ev w))

abbrev pub no_summary : Summary
no_summary = record {
  created = 0;
  updated_existing = 0;
  tickets_created = 0;
  tickets_added_to_existing = 0;
  skipped = 0;
  event_ids = [];
  errors = [];
}

-- `createEventsBulk`: nothing stands for an input that is no array.
unfoldable pub create_events_bulk : Option (List RawEvent) → Action Catalog Summary
create_events_bulk none s = (err not_acceptable, s)
create_events_bulk (some evs) s =
    let w = upload_from 0 evs (record { catalog = s; summary = no_summary }) in
    (ok w.summary, w.catalog)
