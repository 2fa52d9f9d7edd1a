-- ===== src/Events/Tidy.antt =====
-- How many collections there are, and of what.
use seatwaves_backend.Common.{
  ℕ, ◌+◌, ◌≤◌, ◌≡◌, ap, refl, Bool, true, false, not, ◌&&◌, ◌||◌, List, [], ◌∷◌, ◌++◌, Option, none,
  some, arith, leb, ◌==◌, if◌then◌else◌, keep, Action, Bool-cases, Option-cases, inl, inr,
}
use seatwaves_backend.Database.Table.{find_unique}
use seatwaves_backend.Events.Data.{
  CollectionType, webalert, sports, theater, concert, Collection, Catalog, find_event,
}
use seatwaves_backend.Events.Collections.{
  CollectionInput, collection_code, is_of_type, shows, count_where, exists_where, limit,
  create_collection, collection_id, delete_collection,
}

module _ {A : Type 0} (p : A → Bool) where
  count-append :
      (xs : List A) (x : A)
      → count_where p (xs ++ x ∷ []) ≡ count_where p xs + (if p x then 1 else 0)
  unfolding count_where
  count-append [] x = ground arith
  count-append (y ∷ xs) x = ground (arith, count-append xs x)

  count-keep : (q : A → Bool) (xs : List A) → count_where p (keep q xs) ≤ count_where p xs
  unfolding count_where
  count-keep q [] = omega arith
  count-keep q (x ∷ xs) = ground (arith, count-keep q xs)

  count-none : (xs : List A) → exists_where p xs ≡ false → count_where p xs ≡ 0
  unfolding count_where exists_where
  count-none [] h = refl
  count-none (x ∷ xs) h = ground (arith, count-none xs)

-- No type has more than five collections, and none shows an event twice.
pub record IsTidy (cs : List Collection) : Type 0 where
  pub within : (ty : CollectionType) → count_where (is_of_type ty) cs ≤ limit
  pub once : (ty : CollectionType) (event : ℕ) → count_where (shows ty event) cs ≤ 1

at_most_one : (b : Bool) → (if b then 1 else 0) ≤ 1
at_most_one true = omega arith
at_most_one false = omega arith

abbrev same_type : CollectionType → CollectionType → Bool
same_type a b = collection_code a == collection_code b

same_type-eq : (a b : CollectionType) → same_type a b ≡ true → a ≡ b
same_type-eq webalert webalert h = refl
same_type-eq sports sports h = refl
same_type-eq theater theater h = refl
same_type-eq concert concert h = refl
same_type-eq _ _ h = cc

module _ (ty : CollectionType) (event i : ℕ) (cs : List Collection) (h : IsTidy cs) where
  abbrev added : Collection
  added = record { id = i; type = ty; events = event ∷ [] }

  within-added :
      leb limit (count_where (is_of_type ty) cs) ≡ false
      → (other : CollectionType) → count_where (is_of_type other) (cs ++ added ∷ []) ≤ limit
  within-added room other = elim (Bool-cases (same_type ty other)) [
    | inl e ↦
        let same = same_type-eq ty other e in
        let full = ap (λ t. count_where (is_of_type t) cs) same in
        ground (arith, count-append (is_of_type other) cs added, e, full, room)
    | inr e ↦ ground (arith, count-append (is_of_type other) cs added, e, h.within other)
  ]

  once-added :
      exists_where (shows ty event) cs ≡ false
      → (other : CollectionType) (x : ℕ) → count_where (shows other x) (cs ++ added ∷ []) ≤ 1
  once-added absent other x = elim (Bool-cases (same_type ty other && (event == x || false))) [
    | inr e ↦ ground (arith, count-append (shows other x) cs added, e, h.once other x)
    | inl e ↦
        let same = same_type-eq ty other (ground (arith, e)) in
        let this : event ≡ x = ground (arith, e) in
        let zero_t = ap (λ t. count_where (shows t event) cs) same in
        let zero_x = ap (λ k. count_where (shows other k) cs) this in
        omega (
          arith,
          count-append (shows other x) cs added,
          at_most_one (same_type ty other && (event == x || false)),
          zero_t,
          zero_x,
          count-none (shows ty event) cs absent,
        )
  ]

keep-IsTidy : (q : Collection → Bool) (cs : List Collection) → IsTidy cs → IsTidy (keep q cs)
keep-IsTidy q cs h = record {
  within = λ ty. omega (arith, count-keep (is_of_type ty) q cs, h.within ty);
  once = λ ty event. omega (arith, count-keep (shows ty event) q cs, h.once ty event);
}

-- A call of the administration.
pub data CollectionCall : Type 0 where
  create : Option CollectionInput → CollectionCall
  delete : ℕ → CollectionCall

unfoldable pub collection_call : CollectionCall → Action Catalog ℕ
collection_call (create input) = create_collection input
collection_call (delete i) = delete_collection i

unfoldable pub collection_calls : List CollectionCall → Catalog → Catalog
collection_calls [] s = s
collection_calls (c ∷ calls) s = collection_calls calls (collection_call c s).1

create-IsTidy :
    (input : Option CollectionInput) (s : Catalog)
    → IsTidy s.collections
    → IsTidy (create_collection input s).1.collections
unfolding create_collection
create-IsTidy none s h = h
create-IsTidy (some body) s h =
    elim (Bool-cases (leb limit (count_where (is_of_type body.type) s.collections))) [
      | inl e ↦ rw e h
      | inr e ↦ elim (Option-cases (find_event body.event_id s.events)) [
        | inl f ↦ rw (e, f) h
        | inr (x, f) ↦
            elim (Bool-cases (exists_where (shows body.type body.event_id) s.collections)) [
              | inl g ↦ rw (e, f, g) h
              | inr g ↦
                  rw (e, f, g)
                    (record {
                      within = within-added body.type body.event_id s.next_id s.collections h e;
                      once = once-added body.type body.event_id s.next_id s.collections h g;
                    })
            ]
      ]
    ]

delete-IsTidy :
    (i : ℕ) (s : Catalog) → IsTidy s.collections → IsTidy (delete_collection i s).1.collections
unfolding delete_collection
delete-IsTidy i s h = elim (Option-cases (find_unique collection_id i s.collections)) [
  | inl e ↦ rw e h
  | inr (c, e) ↦ rw e (keep-IsTidy (λ (c : Collection). not (c.id == i)) s.collections h)
]

-- However the administration creates and deletes collections, and whichever calls throw, no type has
-- more than five of them and none shows an event twice, when it was so at the start.
pub collection_calls-IsTidy :
    (calls : List CollectionCall) (s : Catalog)
    → IsTidy s.collections
    → IsTidy (collection_calls calls s).collections
unfolding collection_calls collection_call
collection_calls-IsTidy [] s h = h
collection_calls-IsTidy (create input ∷ calls) s h =
    collection_calls-IsTidy calls (create_collection input s).1 (create-IsTidy input s h)
collection_calls-IsTidy (delete i ∷ calls) s h =
    collection_calls-IsTidy calls (delete_collection i s).1 (delete-IsTidy i s h)
