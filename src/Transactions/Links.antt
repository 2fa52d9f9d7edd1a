-- ===== src/Transactions/Links.antt =====
-- How a row that names another one fits it, and what keeps that.
use mathlib.Core.Option
use seatwaves_backend.Common.{
  ℕ, ◌+◌, ◌<◌, ◌≡◌, refl, ap, sym, subst, ◌∙◌, Bool, true, false, List, [], ◌∷◌, ◌++◌, Option, none,
  some, arith, ◌==◌, if◌then◌else◌, All, All-append, All-map,
}
use seatwaves_backend.Database.Table.{
  find_unique, update, find_unique-update, find_unique-append, update-HasUniqueIds, HasUniqueIds,
  All-update,
}
use seatwaves_backend.Orders.Data.{
  TransactionType, seller_payout, admin_commission, booking_refund, coupon_refund,
}
use seatwaves_backend.Transactions.Data.{Terms, Transaction, Books, row_id, find_row}
use seatwaves_backend.Transactions.Service.{is_payment}

module _ {Decimal : Type 0} where
  -- A commission is the fee of its payment, and a payout what its payment leaves to the seller; a
  -- refund goes back to the payer, as one of a booking or of a coupon by what was paid.
  abbrev pub FitsAs : TransactionType → Terms Decimal → Terms Decimal → Type 0
  FitsAs admin_commission r p =
      (is_payment p.type ≡ true) × (some r.amount ≡ p.platform_fee) × (r.event_id ≡ p.event_id)
  FitsAs seller_payout r p =
      (is_payment p.type ≡ true) × (some r.amount ≡ p.seller_amount) × (r.booking_id ≡ p.booking_id)
  FitsAs booking_refund r p =
      (is_payment p.type ≡ true)
      × (r.payee_id ≡ p.payer_id)
      × (r.booking_id ≡ p.booking_id)
      × (r.currency ≡ p.currency)
  FitsAs coupon_refund r p =
      (is_payment p.type ≡ false)
      × (r.payee_id ≡ p.payer_id)
      × (r.booking_id ≡ p.booking_id)
      × (r.currency ≡ p.currency)
  FitsAs _ r p = ⊥

  abbrev pub terms_of : ℕ → List (Transaction Decimal) → Option (Terms Decimal)
  terms_of i rows = Option.map (λ (t : Transaction Decimal). t.terms) (find_row i rows)

  -- A row that names a parent names one that is there, and fits it.
  abbrev pub LinkedTo : List (Transaction Decimal) → Option ℕ → Terms Decimal → Type 0
  LinkedTo rows none r = Unit
  LinkedTo rows (some i) r = (p : Terms Decimal) × (terms_of i rows ≡ some p) × FitsAs r.type r p

  abbrev pub IsLinked : List (Transaction Decimal) → Terms Decimal → Type 0
  IsLinked rows r = LinkedTo rows r.parent_id r

  linked_by :
      (rows more : List (Transaction Decimal)) (parent : Option ℕ) (r : Terms Decimal)
      → ((i : ℕ) (p : Terms Decimal) → terms_of i rows ≡ some p → terms_of i more ≡ some p)
      → LinkedTo rows parent r
      → LinkedTo more parent r
  linked_by rows more none r k h = tt
  linked_by rows more (some i) r k (p, found, fits) = (p, k i p found, fits)

  map-some :
      (o : Option (Transaction Decimal)) {p : Terms Decimal}
      → Option.map (λ (t : Transaction Decimal). t.terms) o ≡ some p
      → (t : Transaction Decimal) × (o ≡ some t) × (t.terms ≡ p)
  map-some none h = absurd (Option.none-ne-some _ h)
  map-some (some t) h = (t, refl, Option.some_inj.0 h)

  terms_of-append :
      (rows more : List (Transaction Decimal)) (i : ℕ) (p : Terms Decimal)
      → terms_of i rows ≡ some p
      → terms_of i (rows ++ more) ≡ some p
  unfolding find_row
  terms_of-append rows more i p h =
      let (t, found, same) = map-some (find_row i rows) h in
      ap (Option.map (λ (t : Transaction Decimal). t.terms))
        (find_unique-append row_id i rows more found)
      ∙ ap some same

  map-same :
      (b : Bool) (f : Transaction Decimal → Transaction Decimal) (o : Option (Transaction Decimal))
      → ((r : Transaction Decimal) → (f r).terms ≡ r.terms)
      → Option.map (λ (t : Transaction Decimal). t.terms) (if b then Option.map f o else o)
        ≡ Option.map (λ (t : Transaction Decimal). t.terms) o
  map-same true f none k = refl
  map-same true f (some t) k = ap some (k t)
  map-same false f o k = refl

  terms_of-update :
      (i : ℕ) (f : Transaction Decimal → Transaction Decimal) (rows : List (Transaction Decimal))
      → ((r : Transaction Decimal) → (f r).id ≡ r.id)
      → ((r : Transaction Decimal) → (f r).terms ≡ r.terms)
      → (j : ℕ) → terms_of j (update row_id i f rows) ≡ terms_of j rows
  unfolding find_row
  terms_of-update i f rows ids k j =
      ap (Option.map (λ (t : Transaction Decimal). t.terms))
        (find_unique-update row_id i j f rows ids)
      ∙ map-same (i == j) f (find_row j rows) k

  -- Every row is linked, and the next id is new.
  pub record IsSound (s : Books Decimal) : Type 0 where
    pub linked : All (λ (r : Transaction Decimal). IsLinked s.transactions r.terms) s.transactions
    pub unique : HasUniqueIds row_id s.transactions
    pub below : All (λ (r : Transaction Decimal). r.id < s.next_id) s.transactions

  pub not_found_below :
      (n : ℕ) (rows : List (Transaction Decimal))
      → All (λ (r : Transaction Decimal). r.id < n) rows
      → find_row n rows ≡ none
  unfolding find_row find_unique
  not_found_below n [] h = refl
  not_found_below n (x ∷ t) h = let lower = h.0 in ground (arith, lower, not_found_below n t h.1)

  still_none :
      (i : ℕ) (t : List (Transaction Decimal)) (r : Transaction Decimal)
      → find_unique row_id i t ≡ none
      → (r.id == i) ≡ false
      → find_unique row_id i (t ++ r ∷ []) ≡ none
  unfolding find_unique
  still_none i [] r h k = rw k refl
  still_none i (x ∷ t) r h k = ground (arith, still_none i t r)

  append-HasUniqueIds :
      (rows : List (Transaction Decimal)) (r : Transaction Decimal)
      → HasUniqueIds row_id rows
      → find_row r.id rows ≡ none
      → HasUniqueIds row_id (rows ++ r ∷ [])
  unfolding find_row find_unique
  append-HasUniqueIds [] r u h = (refl, tt)
  append-HasUniqueIds (x ∷ t) r u h =
      let apart : (r.id == x.id) ≡ false = ground (arith, h) in
      let rest : find_row r.id t ≡ none = ground (arith, h) in
      (still_none x.id t r u.0 apart, append-HasUniqueIds t r u.1 rest)

  -- A row with the next id that is linked to those before it.
  pub append-IsSound :
      (s : Books Decimal) (r : Transaction Decimal)
      → IsSound s
      → r.id ≡ s.next_id
      → IsLinked s.transactions r.terms
      → IsSound (record s { transactions = s.transactions ++ r ∷ []; next_id = s.next_id + 1 })
  append-IsSound s r h e l =
      let rows = s.transactions in
      let more = r ∷ [] in
      let on = λ (t : Terms Decimal).
        linked_by rows (rows ++ more) t.parent_id t (terms_of-append rows more) in
      record {
        linked =
            All-append (λ (x : Transaction Decimal). IsLinked (rows ++ more) x.terms) rows more
              (All-map (λ (x : Transaction Decimal). IsLinked rows x.terms) _ (λ x k. on x.terms k)
                rows h.linked)
              (on r.terms l, tt);
        unique =
            append-HasUniqueIds rows r h.unique
              (ap (λ i. find_row i rows) e ∙ not_found_below s.next_id rows h.below);
        below =
            All-append (λ (x : Transaction Decimal). x.id < s.next_id + 1) rows more
              (All-map (λ (x : Transaction Decimal). x.id < s.next_id) _ (λ x k. omega (arith, k))
                rows h.below)
              (omega (arith, e), tt);
      }

  -- A write that changes neither an id nor the terms.
  pub update-IsSound :
      (s : Books Decimal) (i : ℕ) (f : Transaction Decimal → Transaction Decimal)
      → ((r : Transaction Decimal) → (f r).id ≡ r.id)
      → ((r : Transaction Decimal) → (f r).terms ≡ r.terms)
      → IsSound s
      → IsSound (record s { transactions = update row_id i f s.transactions })
  update-IsSound s i f ids k h =
      let rows = s.transactions in
      let more = update row_id i f rows in
      let now : Transaction Decimal → Type 0 = λ x. IsLinked more x.terms in
      record {
        linked =
            All-update row_id now i f rows (λ r l. subst (IsLinked more) (sym (k r)) l)
              (All-map (λ (x : Transaction Decimal). IsLinked rows x.terms) now
                (λ x l.
                  linked_by rows more x.terms.parent_id x.terms
                    (λ j p e. terms_of-update i f rows ids k j ∙ e) l)
                rows h.linked);
        unique = update-HasUniqueIds row_id i f rows ids h.unique;
        below =
            All-update row_id (λ (x : Transaction Decimal). x.id < s.next_id) i f rows
              (λ r l. omega (arith, ids r, l)) h.below;
      }
