-- ===== src/Transactions/Sound.antt =====
-- Every call of the transaction service keeps the rows linked.
use Prim.Native.String.{String}
use seatwaves_backend.Common.{
  ℕ, ◌≡◌, ◌⊎◌, refl, ap, Bool, true, false, not, ◌&&◌, List, [], ◌∷◌, ◌++◌, Option, none, some,
  arith, ◌==◌, same_id, if◌then◌else◌, Bool-cases, inl, inr, ok, err, failure, is_some, bad_request,
  not_found, ◌>>◌, modify,
}
use seatwaves_backend.Common.Keeps.{
  Keeps, pure-Keeps, gets-Keeps, or_throw-Keeps, throw_if-Keeps, bind-Keeps, transactional-Keeps,
}
use seatwaves_backend.Database.Table.{find_unique}
use seatwaves_backend.Orders.Data.{TransactionStatus, Metadata}
use seatwaves_backend.Transactions.Data.{Money, Terms, Transaction, Books, find_customer, find_row}
use seatwaves_backend.Transactions.Service.{
  keys_hold, new_row, append_row, insert_row, CreateTransaction, create_transaction, terms_of_dto,
  is_wide_dto, find_intent, with_status, update_transaction_status, write_row,
}
use seatwaves_backend.Transactions.Decisions.{
  look_up, approve, reject, approve_transaction, reject_transaction,
}
use seatwaves_backend.Transactions.Links.{IsSound, IsLinked, append-IsSound, update-IsSound}

module _ {Decimal : Type 0} where
  pub last-found :
      (i : ℕ) (rows : List (Transaction Decimal)) (r : Transaction Decimal)
      → find_row i rows ≡ none
      → (r.id == i) ≡ true
      → find_row i (rows ++ r ∷ []) ≡ some r
  unfolding find_row find_unique
  last-found i [] r h k = rw k refl
  last-found i (x ∷ t) r h k = ground (arith, last-found i t r)

pub same_id-eq : (o : Option ℕ) (i : ℕ) → same_id o (some i) ≡ true → o ≡ some i
same_id-eq none i h = cc
same_id-eq (some x) i h = ap some (ground (arith, h))

module _ (m : Money) where
  abbrev State : Type 0
  State = Books m.Decimal

  module _ (w : Bool) (terms : Terms m.Decimal) (status : TransactionStatus) (notes : Option String)
      (p : Bool) (s : Books m.Decimal) where
    abbrev pub inserted : Transaction m.Decimal
    inserted = new_row m s.next_id terms status notes (if p then some s.clock else none)

    pub insert_row-cases :
        (insert_row m w terms status notes p s ≡ (ok inserted, append_row m inserted s))
        ⊎ (insert_row m w terms status notes p s ≡ (err failure, s))
    unfolding insert_row
    insert_row-cases = elim (Bool-cases (not w && keys_hold m terms s)) [
      | inl e ↦ inl (rw e refl)
      | inr e ↦ inr (rw e refl)
    ]

    pub insert_row-IsSound :
        IsSound s
        → IsLinked s.transactions terms
        → IsSound (insert_row m w terms status notes p s).1
    insert_row-IsSound h l = elim insert_row-cases [
      | inl e ↦ rw e (append-IsSound s inserted h refl l)
      | inr e ↦ rw e h
    ]

  insert_row-Keeps :
      (w : Bool) (terms : Terms m.Decimal) (status : TransactionStatus) (notes : Option String)
      (p : Bool)
      → ((s : Books m.Decimal) → IsLinked s.transactions terms)
      → Keeps IsSound (insert_row m w terms status notes p)
  insert_row-Keeps w terms status notes p l = record {
    keeps = λ s h. insert_row-IsSound w terms status notes p s h (l s);
  }

  pub create_transaction-Sound : (d : CreateTransaction m) → Keeps IsSound (create_transaction m d)
  unfolding create_transaction
  create_transaction-Sound d = transactional-Keeps IsSound _ (
      bind-Keeps _ _ (gets-Keeps (λ (s : State). find_customer d.payer_id s.users)) (λ found.
        bind-Keeps _ _ (or_throw-Keeps found bad_request) (λ payer.
          bind-Keeps _ _
            (bind-Keeps _ _ (throw_if-Keeps (not (is_some payer.stripe_customer_id)) bad_request)
              (λ u. gets-Keeps (λ (s : State). find_customer d.payee_id s.users)))
            (λ found. bind-Keeps _ _ (or_throw-Keeps found bad_request) (λ payee.
              bind-Keeps _ _ (throw_if-Keeps (not (is_some payee.stripe_customer_id)) bad_request)
                (λ u.
                  insert_row-Keeps (is_wide_dto m d) (terms_of_dto m d) TransactionStatus.pending
                    d.notes false (λ s. tt)))))))

  update-Keeps :
      (i : ℕ) (f : State → Transaction m.Decimal → Transaction m.Decimal)
      → ((s : State) (r : Transaction m.Decimal) → (f s r).id ≡ r.id)
      → ((s : State) (r : Transaction m.Decimal) → (f s r).terms ≡ r.terms)
      → Keeps IsSound (modify (λ (s : State). write_row m i (f s) s))
  update-Keeps i f ids terms = record {
    keeps = λ s h. update-IsSound s i (f s) (ids s) (terms s) h;
  }

  pub update_status-Sound :
      (intent : String) (status : TransactionStatus) (metadata : Option Metadata)
      → Keeps IsSound (update_transaction_status m intent status metadata)
  unfolding update_transaction_status
  update_status-Sound intent status metadata =
      bind-Keeps _ _ (gets-Keeps (λ (s : State). find_intent m intent s.transactions)) (λ found.
        bind-Keeps _ _ (or_throw-Keeps found not_found) (λ t.
          update-Keeps t.id (λ s. with_status m status metadata s.clock) (λ s r. refl)
            (λ s r. refl)))

  decided-Keeps :
      (i admin : ℕ) (f : State → Transaction m.Decimal → Transaction m.Decimal)
      → ((s : State) (r : Transaction m.Decimal) → (f s r).id ≡ r.id)
      → ((s : State) (r : Transaction m.Decimal) → (f s r).terms ≡ r.terms)
      → Keeps IsSound (look_up m i admin >> modify (λ (s : State). write_row m i (f s) s))
  decided-Keeps i admin f ids terms =
      bind-Keeps _ _
        (bind-Keeps _ _ (gets-Keeps (λ (s : State). find_row i s.transactions)) (λ found.
          bind-Keeps _ _
            (bind-Keeps _ _ (or_throw-Keeps found failure)
              (λ t. gets-Keeps (λ (s : State). find_customer admin s.users)))
            (λ known. bind-Keeps _ _ (or_throw-Keeps known failure) (λ c. pure-Keeps tt))))
        (λ u. update-Keeps i f ids terms)

  pub approve-Sound : (i admin : ℕ) → Keeps IsSound (approve_transaction m i admin)
  unfolding approve_transaction
  approve-Sound i admin =
      decided-Keeps i admin (λ s. approve m admin s.clock) (λ s r. refl) (λ s r. refl)

  pub reject-Sound :
      (i admin : ℕ) (reason : String) → Keeps IsSound (reject_transaction m i admin reason)
  unfolding reject_transaction
  reject-Sound i admin reason =
      decided-Keeps i admin (λ s. reject m admin s.clock reason) (λ s r. refl) (λ s r. refl)
