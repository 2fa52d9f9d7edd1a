-- ===== src/Orders/Store.antt =====
-- The state that the payment services share, and the writes to one row of it.
use Prim.Native.String.{String}
use seatwaves_backend.Common.{ℕ, Bool, List, ◌∷◌, Option, none, some, Action}
use seatwaves_backend.Database.Table.{find_unique, update}
use seatwaves_backend.Points.Data.{Loyalty}
use seatwaves_backend.Orders.Data.{
  Transaction, Booking, Ticket, User, transaction_id, booking_id, ticket_id,
}

pub data WebhookEventStatus : Type 0 where
  pending processed failed : WebhookEventStatus

-- A row of WebhookEvent, by its `stripeEventId`.
pub record WebhookEvent : Type 0 where
  pub stripe_event_id : ℕ
  pub type : String
  pub status : WebhookEventStatus
  pub processed_at : Option ℕ
  pub error : Bool

abbrev pub event_id : WebhookEvent → ℕ
event_id e = e.stripe_event_id

pub record BookingOtp : Type 0 where
  pub email : String
  pub otp : String
  pub expires_at : Option ℕ

-- A CREDIT of AdminBalance.
pub record AdminCredit : Type 0 where
  pub amount : ℕ
  pub reference : ℕ

-- Notifications, mails and entries of the activity log, which the services send and never read.
pub data Notice : Type 0 where
  notification : ℕ → String → Notice
  activity : Option ℕ → String → Notice
  mail : ℕ → String → Notice

pub record Store (Number : Type 0) : Type 0 where
  pub transactions : List Transaction
  pub bookings : List Booking
  pub tickets : List Ticket
  pub users : List User
  pub events : List WebhookEvent
  pub otps : List BookingOtp
  pub credits : List AdminCredit
  pub loyalty : Loyalty Number
  pub outbox : List Notice

-- What a service or a handler does with the state.
abbrev pub Handler : Type 0 → Type 0
Handler Number = Action (Store Number) (Unit {0})

module _ {Number : Type 0} where
  abbrev pub write_transaction : ℕ → (Transaction → Transaction) → Store Number → Store Number
  write_transaction i f s = record s { transactions = update transaction_id i f s.transactions }

  abbrev pub write_booking : ℕ → (Booking → Booking) → Store Number → Store Number
  write_booking i f s = record s { bookings = update booking_id i f s.bookings }

  abbrev pub write_ticket : ℕ → (Ticket → Ticket) → Store Number → Store Number
  write_ticket i f s = record s { tickets = update ticket_id i f s.tickets }

  abbrev pub send : Notice → Store Number → Store Number
  send m s = record s { outbox = m ∷ s.outbox }

  -- The `booking` that a query includes with a transaction.
  abbrev pub booking_of : Transaction → Store Number → Option Booking
  booking_of t s = elim t.booking_id [ none ↦ none | some i ↦ find_unique booking_id i s.bookings ]

  -- A call of the points service.
  abbrev pub on_loyalty : {A : Type 0} → Action (Loyalty Number) A → Action (Store Number) A
  on_loyalty m s = let (r, l) = m s.loyalty in (r, record s { loyalty = l })
