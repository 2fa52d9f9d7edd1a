-- ===== src/Events/Tests.antt =====
-- Runs of the event service, and its theorems at concrete inputs.
use seatwaves_backend.Common.{
  ◌≡◌, refl, true, false, List, [], ◌∷◌, none, some, ok, err, not_acceptable, transactional, inl,
  arith,
}
use seatwaves_backend.Database.Table.{find_unique}
use seatwaves_backend.Events.Data.{
  TicketData, fixed, NewTicket, Ticket, Details, Event, sports, Catalog, create_many, find_seller,
  find_event, find_ticket, find_external,
}
use seatwaves_backend.Events.Chunks.{create_in_chunks, chunks_from}
use seatwaves_backend.Events.Loop.{create_in_chunks-create_many}
use seatwaves_backend.Events.Service.{EventInput, create_event, insert_event}
use seatwaves_backend.Events.Creation.{AllOrNothing, create_event-AllOrNothing}
use seatwaves_backend.Events.Ownership.{
  TicketCall, add, change, remove, ticket_calls, ticket_calls-find_ticket,
}
use seatwaves_backend.Events.Bulk.{
  RawEvent, create_events_bulk, create_raw, upload_one, upload_from, add_row, add_rows, no_summary,
}
use seatwaves_backend.Events.Collections.{count_where}
use seatwaves_backend.Events.Tidy.{
  IsTidy, CollectionCall, create, delete, collection_calls, collection_calls-IsTidy,
}

abbrev seat : TicketData
seat = record {
  ticket_id = "T1";
  ticket_type = none;
  seat_details = "A1";
  metadata = none;
  price = 5_000;
  discount = 0;
  discount_type = fixed;
  thumbnail = none;
}

abbrev plain : Details
plain = record {
  title = "Final";
  description = none;
  venue = some "Arena";
  image = none;
  city = none;
  state = none;
  address = none;
  country = none;
  timezone = none;
  seatmap_image = none;
  venue_image = none;
  latitude = none;
  longitude = none;
  origin_url = none;
  start_time = 9;
  end_time = none;
  duration = none;
  metadata = none;
  category_id = 3;
}

abbrev final : Event
final = record { id = 10; event_id = "E10"; seller_id = 1; details = plain }

abbrev booked : Ticket
booked = record { id = 20; seller_id = 1; event_id = 10; is_booked = true; data_of = seat }

abbrev catalog : Catalog
catalog = record {
  users =
      record { id = 1; stripe_account_id = some "acct" }
      ∷ record { id = 2; stripe_account_id = none }
      ∷ [];
  categories = 3 ∷ [];
  events = final ∷ [];
  tickets = booked ∷ [];
  collections = [];
  next_id = 100;
}

abbrev two_rows : List NewTicket
two_rows =
    record { seller_id = 1; event_id = 10; data_of = seat }
    ∷ record { seller_id = 2; event_id = 10; data_of = seat }
    ∷ []

create_in_chunks_run : (create_in_chunks two_rows catalog).0 ≡ ok 2
unfolding chunks_from create_many find_seller find_event find_unique
create_in_chunks_run = refl

create_in_chunks-create_many_example :
    transactional (create_in_chunks two_rows) catalog ≡ create_many two_rows catalog
create_in_chunks-create_many_example = create_in_chunks-create_many two_rows catalog

abbrev input : EventInput
input = record { event_id = "E11"; details = plain; tickets = seat ∷ seat ∷ [] }

create_event_run :
    (create_event (some input) 1 catalog).0 ≡ ok (record { event_id = 100; tickets = 2 })
unfolding create_event insert_event chunks_from create_many find_seller find_event find_external
    find_unique
create_event_run = refl

not_onboarded_run : create_event (some input) 2 catalog ≡ (err not_acceptable, catalog)
unfolding create_event find_seller find_unique
not_onboarded_run = refl

create_event-AllOrNothing_example : AllOrNothing input catalog (create_event (some input) 1 catalog)
create_event-AllOrNothing_example = create_event-AllOrNothing input 1 catalog

abbrev attempts : List TicketCall
attempts = remove 20 ∷ add 10 (some seat) ∷ change 20 none ∷ []

booked_found : find_ticket 20 catalog.tickets ≡ some booked
unfolding find_ticket find_unique
booked_found = refl

ticket_calls-find_ticket_example :
    find_ticket 20 (ticket_calls 1 attempts catalog).tickets ≡ some booked
ticket_calls-find_ticket_example =
    ticket_calls-find_ticket 1 20 attempts catalog booked booked_found (inl refl)

-- An event that is new, one that is there, one without an external id, and one whose ticket lacks its
-- seller.
abbrev raw : List RawEvent
raw =
    record {
      event_id = some "E11";
      seller_id = some 1;
      details = some plain;
      tickets =
          record { id = none; seller_id = some 1; is_booked = false; data_of = some seat } ∷ [];
      has_meta_data = false;
    }
    ∷ record {
      event_id = some "E10";
      seller_id = some 1;
      details = some plain;
      tickets = [];
      has_meta_data = false;
    }
    ∷ record {
      event_id = none;
      seller_id = some 1;
      details = some plain;
      tickets = [];
      has_meta_data = false;
    }
    ∷ record {
      event_id = some "E12";
      seller_id = some 1;
      details = some plain;
      tickets = record { id = none; seller_id = none; is_booked = false; data_of = some seat } ∷ [];
      has_meta_data = false;
    }
    ∷ []

-- The last one is counted as created and as skipped.
bulk_run :
    (create_events_bulk (some raw) catalog).0
    ≡ ok (record {
      created = 2;
      updated_existing = 1;
      tickets_created = 1;
      tickets_added_to_existing = 0;
      skipped = 2;
      event_ids = 100 ∷ 102 ∷ [];
      errors = 2 ∷ 3 ∷ [];
    })
unfolding create_events_bulk upload_from upload_one insert_event create_raw chunks_from create_many
    find_seller find_event find_external find_unique add_row add_rows
bulk_run = refl

-- A ticket that brings the id of a ticket that is there is skipped, and told as added.
abbrev taken : List RawEvent
taken =
    record {
      event_id = some "E10";
      seller_id = some 1;
      details = some plain;
      tickets =
          record { id = some 20; seller_id = some 1; is_booked = false; data_of = some seat } ∷ [];
      has_meta_data = false;
    }
    ∷ []

taken_run :
    create_events_bulk (some taken) catalog
    ≡ (ok (record no_summary { updated_existing = 1; tickets_added_to_existing = 1 }), catalog)
unfolding create_events_bulk upload_from upload_one create_raw chunks_from find_seller find_event
    find_ticket find_external find_unique add_row add_rows
taken_run = refl

abbrev shown_twice : List CollectionCall
shown_twice =
    create (some (record { type = sports; event_id = 10 }))
    ∷ create (some (record { type = sports; event_id = 10 }))
    ∷ delete 7
    ∷ []

no_collections-IsTidy : IsTidy []
unfolding count_where
no_collections-IsTidy = record { within = λ ty. omega arith; once = λ ty event. omega arith }

collection_calls-IsTidy_example : IsTidy (collection_calls shown_twice catalog).collections
collection_calls-IsTidy_example = collection_calls-IsTidy shown_twice catalog no_collections-IsTidy
