-- ===== src/Events/Data.antt =====
-- Events, tickets and collections, as prisma/schema.prisma declares them, and what the schemas of
-- `event/dto` let through. Prices are cents; a new row takes the next id of a counter.
use Prim.Native.String.{String}
use text.Mathlib.Text.{◌==◌ as str_eq}
use seatwaves_backend.Common.{
  ℕ, ◌+◌, Bool, true, false, ◌&&◌, List, [], ◌∷◌, ◌++◌, Option, none, some, ltb, if◌then◌else◌,
  is_some, length, failure, Action, ok, err,
}
use seatwaves_backend.Database.Table.{find_unique}
use seatwaves_backend.Orders.Data.{Metadata}

pub data DiscountType : Type 0 where
  fixed percentage : DiscountType

-- `ticketSchema`
pub record TicketData : Type 0 where
  pub ticket_id : String
  pub ticket_type : Option String
  pub seat_details : String
  pub metadata : Option Metadata
  pub price : ℕ
  pub discount : ℕ
  pub discount_type : DiscountType
  pub thumbnail : Option String

-- A row that `createMany` or `create` is given.
pub record NewTicket : Type 0 where
  pub seller_id : ℕ
  pub event_id : ℕ
  pub data_of : TicketData

pub record Ticket : Type 0 where
  pub id : ℕ
  pub seller_id : ℕ
  pub event_id : ℕ
  pub is_booked : Bool
  pub data_of : TicketData

-- The fields of an event that are only stored.
pub record Details : Type 0 where
  pub title : String
  pub description : Option String
  pub venue : Option String
  pub image : Option String
  pub city : Option String
  pub state : Option String
  pub address : Option String
  pub country : Option String
  pub timezone : Option String
  pub seatmap_image : Option String
  pub venue_image : Option String
  pub latitude : Option String
  pub longitude : Option String
  pub origin_url : Option String
  pub start_time : ℕ
  pub end_time : Option ℕ
  pub duration : Option ℕ
  pub metadata : Option Metadata
  pub category_id : ℕ

pub record Event : Type 0 where
  pub id : ℕ
  pub event_id : String
  pub seller_id : ℕ
  pub details : Details

-- A user; no account stands for one that is null or empty.
pub record Seller : Type 0 where
  pub id : ℕ
  pub stripe_account_id : Option String

pub data CollectionType : Type 0 where
  webalert sports theater concert : CollectionType

pub record Collection : Type 0 where
  pub id : ℕ
  pub type : CollectionType
  pub events : List ℕ

pub record Catalog : Type 0 where
  pub users : List Seller
  pub categories : List ℕ
  pub events : List Event
  pub tickets : List Ticket
  pub collections : List Collection
  pub next_id : ℕ

unfoldable pub find_seller : ℕ → List Seller → Option Seller
find_seller = find_unique (λ (u : Seller). u.id)

unfoldable pub find_event : ℕ → List Event → Option Event
find_event = find_unique (λ (e : Event). e.id)

unfoldable pub find_ticket : ℕ → List Ticket → Option Ticket
find_ticket = find_unique (λ (t : Ticket). t.id)

-- `event.findUnique({ where: { eventId } })`
unfoldable pub find_external : String → List Event → Option Event
find_external i [] = none
find_external i (e ∷ t) = if str_eq e.event_id i then some e else find_external i t

-- `@db.Decimal(10, 2)`, in cents.
abbrev pub fits : ℕ → Bool
fits cents = ltb cents 10_000_000_000

-- What the database asks of a ticket: its columns hold the amounts, and its keys point to rows.
abbrev pub accepts : List Seller → List Event → NewTicket → Bool
accepts users events t =
    is_some (find_seller t.seller_id users)
    && is_some (find_event t.event_id events)
    && fits t.data_of.price
    && fits t.data_of.discount

abbrev pub accepts_all : List Seller → List Event → List NewTicket → Bool
accepts_all users events [] = true
accepts_all users events (t ∷ ts) = accepts users events t && accepts_all users events ts

abbrev pub ticket_of : ℕ → NewTicket → Ticket
ticket_of i t = record {
  id = i;
  seller_id = t.seller_id;
  event_id = t.event_id;
  is_booked = false;
  data_of = t.data_of;
}

abbrev pub number_from : ℕ → List NewTicket → List Ticket
number_from i [] = []
number_from i (t ∷ ts) = ticket_of i t ∷ number_from (i + 1) ts

abbrev pub insert_tickets : List NewTicket → Catalog → Catalog
insert_tickets rows s = record s {
  tickets = s.tickets ++ number_from s.next_id rows;
  next_id = s.next_id + length rows;
}

-- `ticket.createMany({ data, skipDuplicates: true })`: no column but the id is unique, so that no row
-- is skipped; a row that the database refuses ends the statement with nothing written.
unfoldable pub create_many : List NewTicket → Action Catalog ℕ
create_many rows s =
    if accepts_all s.users s.events rows
    then (ok (length rows), insert_tickets rows s)
    else (err failure, s)
