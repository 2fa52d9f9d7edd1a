-- ===== src/Events/Uploads.antt =====
-- What the body of the loop of `createEventsBulk` does to the tables and to the summary.
use Prim.Native.String.{String}
use seatwaves_backend.Common.{
  ℕ, ◌+◌, ◌≤◌, ◌≡◌, refl, ap, false, [], ◌∷◌, ◌++◌, Option, none, some, arith, length,
  length-append, Option-cases, inl, inr, Result, ok, err, failure, ◌>>=◌, ◌>>◌,
}
use seatwaves_backend.Events.Data.{Details, Event, Catalog, find_external}
use seatwaves_backend.Events.Chunks.{create_tickets}
use seatwaves_backend.Events.Service.{insert_event}
use seatwaves_backend.Events.Bulk.{
  RawEvent, Work, on_catalog, count_up, create_raw, bulk_details, add_new, add_or_new, upload_one,
}
use seatwaves_backend.Events.Growth.{
  Grows, Inserts, insert_event-Inserts, create_raw-Grows, create_tickets-Grows,
}

-- From one state to another, with so many events made and so many found to be there.
pub record Moves (w v : Work) (made kept : ℕ) : Type 0 where
  pub events : length v.catalog.events ≡ length w.catalog.events + made
  pub created : v.summary.created ≡ w.summary.created + made
  pub event_ids : length v.summary.event_ids ≡ length w.summary.event_ids + made
  pub updated : v.summary.updated_existing ≡ w.summary.updated_existing + kept
  pub skipped : v.summary.skipped ≡ w.summary.skipped
  pub errors : length v.summary.errors ≡ length w.summary.errors
  pub tickets : length w.catalog.tickets ≤ length v.catalog.tickets

-- An element that is done made an event or found it; one that threw may have made it.
abbrev pub Fits : Result (Unit {0}) → ℕ → ℕ → Type 0
Fits (ok u) made kept = made + kept ≡ 1
Fits (err e) made kept = (kept ≡ 0) × (made ≤ 1)

abbrev pub Outcome : Work → Result (Unit {0}) × Work → Type 0
Outcome w r = (made : ℕ) × (kept : ℕ) × Fits r.0 made kept × Moves w r.1 made kept

stays :
    (w : Work) (c : Catalog)
    → c.events ≡ w.catalog.events
    → length w.catalog.tickets ≤ length c.tickets
    → Moves w (record w { catalog = c }) 0 0
stays w c e t = record {
  events = omega (arith, ap length e);
  created = omega arith;
  event_ids = omega arith;
  updated = omega arith;
  skipped = refl;
  errors = refl;
  tickets = omega (arith, t);
}

-- The rest of the body, after the tickets of an event that is there.
existing-Outcome :
    (ev : RawEvent) (w : Work) (r : Result ℕ × Catalog)
    → Grows w.catalog r
    → Outcome w (
        (on_catalog (λ _. r)
            >> count_up (λ s. record s {
              tickets_added_to_existing = s.tickets_added_to_existing + length ev.tickets;
            })
            >> count_up (λ s. record s { updated_existing = s.updated_existing + 1 }))
          w)
existing-Outcome ev w (err e, c) g = (0, 0, (refl, omega arith), stays w c g.0 g.1)
existing-Outcome ev w (ok k, c) g = (
  0,
  1,
  omega arith,
  record {
    events = omega (arith, ap length g.0);
    created = omega arith;
    event_ids = omega arith;
    updated = refl;
    skipped = refl;
    errors = refl;
    tickets = omega (arith, g.1);
  },
)

abbrev counted : Event → Work → Catalog → Work
counted e w c = record w {
  catalog = c;
  summary = record w.summary {
    created = w.summary.created + 1;
    event_ids = w.summary.event_ids ++ e.id ∷ [];
  };
}

-- The rest of the body, after the tickets of an event that is new.
new-Outcome :
    (ev : RawEvent) (e : Event) (w : Work) (s : Catalog) (r : Result ℕ × Catalog)
    → length s.events ≡ length w.catalog.events + 1
    → s.tickets ≡ w.catalog.tickets
    → Grows s r
    → Outcome w (
        (on_catalog (λ _. r)
            >> count_up (λ s. record s { tickets_created = s.tickets_created + length ev.tickets }))
          (counted e w s))
new-Outcome ev e w s (err x, c) h k g = (
  1,
  0,
  (refl, omega arith),
  record {
    events = omega (arith, ap length g.0, h);
    created = refl;
    event_ids = length-append w.summary.event_ids (e.id ∷ []);
    updated = omega arith;
    skipped = refl;
    errors = refl;
    tickets = omega (arith, g.1, ap length k);
  },
)
new-Outcome ev e w s (ok n, c) h k g = (
  1,
  0,
  omega arith,
  record {
    events = omega (arith, ap length g.0, h);
    created = refl;
    event_ids = length-append w.summary.event_ids (e.id ∷ []);
    updated = omega arith;
    skipped = refl;
    errors = refl;
    tickets = omega (arith, g.1, ap length k);
  },
)

-- The rest of the body, after `event.create`.
inserted-Outcome :
    (ev : RawEvent) (w : Work) (r : Result Event × Catalog)
    → Inserts w.catalog r
    → Outcome w (
        (on_catalog (λ _. r) >>= λ e.
        count_up (λ s. record s { created = s.created + 1; event_ids = s.event_ids ++ e.id ∷ [] })
        >> on_catalog (create_tickets (create_raw false e.id) ev.tickets)
        >> count_up (λ s. record s { tickets_created = s.tickets_created + length ev.tickets }))
          w)
inserted-Outcome ev w (err e, c) h = (
  0,
  0,
  (refl, omega arith),
  stays w c (ap (λ (s : Catalog). s.events) h)
      (omega (arith, ap (λ (s : Catalog). length s.tickets) h)),
)
inserted-Outcome ev w (ok e, c) h =
    new-Outcome ev e w c (create_tickets (create_raw false e.id) ev.tickets c) h.0 h.1
      (create_tickets-Grows (create_raw false e.id) (create_raw-Grows false e.id) ev.tickets c)

nothing-Outcome : (w : Work) → Outcome w (err failure, w)
nothing-Outcome w = (0, 0, (refl, omega arith), stays w w.catalog refl (omega arith))

add_new-Outcome :
    (ev : RawEvent) (external : String) (seller : Option ℕ) (details : Option Details) (w : Work)
    → ev.seller_id ≡ seller
    → ev.details ≡ details
    → Outcome w (add_new ev external w)
add_new-Outcome ev external none details w h k = rw h (nothing-Outcome w)
add_new-Outcome ev external (some u) none w h k = rw (h, k) (nothing-Outcome w)
add_new-Outcome ev external (some u) (some d) w h k =
    rw (h, k)
      (inserted-Outcome ev w (insert_event external u (bulk_details d) w.catalog)
        (insert_event-Inserts external u (bulk_details d) w.catalog))

add_or_new-Outcome :
    (ev : RawEvent) (external : String) (existing : Option Event) (w : Work)
    → Outcome w (add_or_new ev external existing w)
add_or_new-Outcome ev external none w =
    add_new-Outcome ev external ev.seller_id ev.details w refl refl
add_or_new-Outcome ev external (some e) w =
    let create = create_raw ev.has_meta_data e.id in
    existing-Outcome ev w (create_tickets create ev.tickets w.catalog)
      (create_tickets-Grows create (create_raw-Grows ev.has_meta_data e.id) ev.tickets w.catalog)

pub upload_one-Outcome : (ev : RawEvent) (w : Work) → Outcome w (upload_one ev w)
unfolding upload_one
upload_one-Outcome ev w = elim (Option-cases ev.event_id) [
  | inl e ↦ rw e (nothing-Outcome w)
  | inr (external, e) ↦
      rw e (add_or_new-Outcome ev external (find_external external w.catalog.events) w)
]
