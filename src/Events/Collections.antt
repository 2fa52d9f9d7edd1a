-- ===== src/Events/Collections.antt =====
-- `createCollections` and `deleteCollection`. The input is what `createCollectionSchema` returns.
use seatwaves_backend.Common.{
  has_id, ℕ, suc, ◌+◌, Bool, false, not, ◌&&◌, ◌||◌, List, [], ◌∷◌, ◌++◌, Option, leb, ◌==◌,
  if◌then◌else◌, keep, not_acceptable, not_found, failure, Action, pure, gets, or_throw, throw_if,
  modify, ◌>>=◌, ◌>>◌,
}
use seatwaves_backend.Database.Table.{find_unique}
use seatwaves_backend.Events.Data.{
  CollectionType, webalert, sports, theater, concert, Collection, Catalog, find_event,
}

pub record CollectionInput : Type 0 where
  pub type : CollectionType
  pub event_id : ℕ

abbrev pub collection_code : CollectionType → ℕ
collection_code webalert = 0
collection_code sports = 1
collection_code theater = 2
collection_code concert = 3

abbrev pub is_of_type : CollectionType → Collection → Bool
is_of_type ty c = collection_code c.type == collection_code ty

-- `where: { type, events: { some: { id } } }`
abbrev pub shows : CollectionType → ℕ → Collection → Bool
shows ty event c = is_of_type ty c && has_id c.events event

-- `count`
unfoldable pub count_where {ℓ} : {A : Type ℓ} → (A → Bool) → List A → ℕ
count_where p [] = 0
count_where p (x ∷ xs) = let rest = count_where p xs in if p x then suc rest else rest

-- `findFirst`, as to whether there is one.
unfoldable pub exists_where {ℓ} : {A : Type ℓ} → (A → Bool) → List A → Bool
exists_where p [] = false
exists_where p (x ∷ xs) = p x || exists_where p xs

abbrev pub limit : ℕ
limit = 5

-- `collections.create`
abbrev pub insert_collection : CollectionType → ℕ → Catalog → Catalog
insert_collection ty event s = record s {
  collections = s.collections ++ record { id = s.next_id; type = ty; events = event ∷ [] } ∷ [];
  next_id = s.next_id + 1;
}

-- `createCollections`
unfoldable pub create_collection : Option CollectionInput → Action Catalog ℕ
create_collection input = or_throw input not_acceptable >>= λ body.
    gets (λ (s : Catalog). count_where (is_of_type body.type) s.collections) >>= λ n.
    throw_if (leb limit n) not_acceptable
    >> gets (λ (s : Catalog). find_event body.event_id s.events)
    >>= λ found.
        or_throw found not_found
        >> gets (λ (s : Catalog). exists_where (shows body.type body.event_id) s.collections)
        >>= λ shown. throw_if shown not_acceptable >> gets (λ (s : Catalog). s.next_id) >>= λ i.
            modify (insert_collection body.type body.event_id) >> pure i

abbrev pub collection_id : Collection → ℕ
collection_id c = c.id

-- `deleteCollection`: prisma throws when there is no such row.
unfoldable pub delete_collection : ℕ → Action Catalog ℕ
delete_collection i = gets (λ (s : Catalog). find_unique collection_id i s.collections) >>= λ found.
    or_throw found failure
    >> modify (λ (s : Catalog). record s {
      collections = keep (λ (c : Collection). not (c.id == i)) s.collections;
    })
    >> pure i
