-- ===== src/Events/Summaries.antt =====
-- The summary of `createEventsBulk` against the tables.
use seatwaves_backend.Common.{ℕ, ◌+◌, ◌≤◌, ◌≡◌, length}
use seatwaves_backend.Events.Data.{Catalog}
use seatwaves_backend.Events.Bulk.{Summary}

-- The numbers of the summary after so many elements, from the tables at the start.
pub record IsTrue (start : Catalog) (n : ℕ) (c : Catalog) (s : Summary) : Type 0 where
  pub events : length c.events ≡ length start.events + s.created
  pub event_ids : length s.event_ids ≡ s.created
  pub errors : length s.errors ≡ s.skipped
  pub each_once : s.updated_existing + s.skipped ≤ n
  pub made_once : s.created + s.updated_existing ≤ n
  pub none_lost : n ≤ s.created + s.updated_existing + s.skipped
  pub tickets : length start.tickets ≤ length c.tickets
