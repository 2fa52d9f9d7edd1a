-- ===== src/Events/Chunks.antt =====
-- The loops that write the tickets of an event in chunks.
use seatwaves_backend.Common.{
  ℕ, zero, suc, ◌+◌, List, [], ◌∷◌, take, length, ltb, if◌then◌else◌, Action, ok, ◌>>=◌,
}
use seatwaves_backend.Events.Data.{NewTicket, Catalog, create_many}

abbrev pub chunk_size : ℕ
chunk_size = 200

abbrev pub drop {ℓ} : {A : Type ℓ} → ℕ → List A → List A
drop zero xs = xs
drop (suc n) [] = []
drop (suc n) (x ∷ xs) = drop n xs

-- `slice(i, i + CHUNK_SIZE)`
abbrev pub chunk {ℓ} : {A : Type ℓ} → ℕ → List A → List A
chunk i xs = take chunk_size (drop i xs)

-- `for (let i = 0; i < rows.length; i += CHUNK_SIZE)`, around a statement that writes a chunk, with the
-- rows written so far; as many turns as there are rows are enough.
module _ {Row : Type 0} (create : List Row → Action Catalog ℕ) where
  unfoldable pub chunks_from : ℕ → ℕ → ℕ → List Row → Action Catalog ℕ
  chunks_from zero i added rows s = (ok added, s)
  chunks_from (suc n) i added rows s =
      let next = chunks_from n (i + chunk_size) in
      if ltb i (length rows)
      then (create (chunk i rows) >>= λ count. next (added + count) rows) s
      else (ok added, s)

  abbrev pub in_chunks : List Row → Action Catalog ℕ
  in_chunks rows = chunks_from (length rows) 0 0 rows

  -- `if (rows.length > 0)`
  abbrev pub create_tickets : List Row → Action Catalog ℕ
  create_tickets rows s = if ltb 0 (length rows) then in_chunks rows s else (ok 0, s)

abbrev pub create_in_chunks : List NewTicket → Action Catalog ℕ
create_in_chunks = in_chunks create_many
