-- ===== src/Roles/Sellers.antt =====
-- What a decision about a seller changes, and what it does not.
use Prim.Native.String.{String}
use seatwaves_backend.Common.{
  has_id, ℕ, ◌≡◌, refl, ap, sym, subst, ◌∙◌, Bool, true, false, List, [], ◌∷◌, ◌++◌, Option, none,
  some, arith, ◌==◌, if◌then◌else◌, Bool-cases, Option-cases, inl, inr, Result, ok, err, not_found,
}
use seatwaves_backend.Database.Table.{find_unique-update_self, find_unique-id}
use seatwaves_backend.Roles.Data.{Role, UserRole, State, find_name, is_assigned}
use seatwaves_backend.Roles.Seller.{
  BusinessInfoStatus, pending, verified, rejected, BusinessInfo, Office, find_info, info_id,
  is_verifying, decide, settle, inform, on_info, proceed, give_role, write_decision,
  update_business_info_status,
}

same_number : (n : ℕ) → (n == n) ≡ true
same_number n = ground arith

assigned-append :
    (user role : ℕ) (rows : List UserRole)
    → is_assigned user role (rows ++ record { user_id = user; role_id = role } ∷ []) ≡ true
assigned-append user role [] = ground arith
assigned-append user role (g ∷ t) = ground (arith, assigned-append user role t)

-- The role of a seller, after the upsert.
assigned-upsert :
    (user role : ℕ) (rows : List UserRole)
    → is_assigned user role (
        if is_assigned user role rows
        then rows
        else rows ++ record { user_id = user; role_id = role } ∷ [])
      ≡ true
assigned-upsert user role rows = elim (Bool-cases (is_assigned user role rows)) [
  | inl e ↦ rw e e
  | inr e ↦ rw e (assigned-append user role rows)
]

-- Approved: with the role there, the seller has it; without, the call throws, and the role is not there.
abbrev pub Approved : ℕ → Option Role → Result (Unit {0}) → State → Office → Type 0
Approved seller none r old p = (r ≡ err not_found) × (p.roles ≡ old)
Approved seller (some x) r old p =
    (r ≡ ok tt) × (is_assigned seller x.id p.roles.db.user_roles ≡ true)

abbrev pub Settled : BusinessInfoStatus → ℕ → Result (Unit {0}) → Office → Office → Type 0
Settled verified seller r o p = Approved seller (find_name "SELLER" o.roles.db.roles) r o.roles p
Settled _ seller r o p = (r ≡ ok tt) × (p.roles ≡ o.roles)

-- The role, when the decision is to approve.
module _ (o : Office) (seller : ℕ) where
  abbrev given : Result (Unit {0}) × Office
  given = give_role seller o

  given-Approved : Approved seller (find_name "SELLER" o.roles.db.roles) given.0 o.roles given.1
  given-Approved = elim (Option-cases (find_name "SELLER" o.roles.db.roles)) [
    | inl e ↦ rw e (refl, refl)
    | inr (x, e) ↦ rw e (refl, assigned-upsert seller x.id o.roles.db.user_roles)
  ]

  given-kept :
      (given.1.infos ≡ o.infos)
      × (given.1.is_seller_verified ≡ o.is_seller_verified)
      × (given.1.roles.role_cache ≡ o.roles.role_cache)
      × (given.1.roles.perm_cache ≡ o.roles.perm_cache)
  given-kept = elim (Option-cases (find_name "SELLER" o.roles.db.roles)) [
    | inl e ↦ rw e (refl, refl, refl, refl)
    | inr (x, e) ↦ rw e (refl, refl, refl, refl)
  ]

module _ (i : ℕ) (status : BusinessInfoStatus) (message : Option String) (o : Office)
    (info : BusinessInfo) where
  abbrev written : Office
  written = write_decision i info.seller_id status message o

  -- The decision is stored, for the row and for the user, and the entries of the caches stay.
  pub record Decides (p : Result (Unit {0}) × Office) : Type 0 where
    pub decided :
        (b : BusinessInfo) × (find_info i p.1.infos ≡ some b)
        × (b.status ≡ status)
        × (b.is_verified ≡ is_verifying status)
        × (b.seller_id ≡ info.seller_id)
    pub marked : p.1.is_seller_verified info.seller_id ≡ is_verifying status
    pub role_cache : p.1.roles.role_cache ≡ o.roles.role_cache
    pub perm_cache : p.1.roles.perm_cache ≡ o.roles.perm_cache
    pub settled : Settled status info.seller_id p.0 o p.1

  outcome-settle :
      find_info i o.infos ≡ some info
      → has_id o.roles.db.users info.seller_id ≡ true
      → update_business_info_status i (some status) message o ≡ settle info.seller_id status written
  unfolding update_business_info_status
  outcome-settle found there =
      ap (λ x. on_info i status message x o) found
      ∙ ap (λ b. proceed i info.seller_id status message b o) there

  written-found :
      find_info i o.infos ≡ some info
      → find_info i written.infos ≡ some (decide status message info)
  unfolding find_info
  written-found found =
      find_unique-update_self info_id i (decide status message) o.infos found
        (find_unique-id info_id i o.infos found)

  written-marked : written.is_seller_verified info.seller_id ≡ is_verifying status
  written-marked = rw (same_number info.seller_id) refl

  -- A decision that only tells the seller.
  told-Decides :
      find_info i o.infos ≡ some info
      → ((q : Office) → q.roles ≡ o.roles → Settled status info.seller_id (ok tt) o q)
      → Decides (inform info.seller_id false written)
  told-Decides found h = record {
    decided = (decide status message info, written-found found, refl, refl, refl);
    marked = written-marked;
    role_cache = refl;
    perm_cache = refl;
    settled = h _ refl;
  }

approved-Decides :
    (i : ℕ) (message : Option String) (o : Office) (info : BusinessInfo)
    → find_info i o.infos ≡ some info
    → Decides i verified message o info
        (give_role info.seller_id (written i verified message o info))
approved-Decides i message o info found =
    let w = written i verified message o info in
    let kept = given-kept w info.seller_id in
    record {
      decided = (
        decide verified message info,
        ap (find_info i) kept.0 ∙ written-found i verified message o info found,
        refl,
        refl,
        refl,
      );
      marked =
          ap (λ (f : ℕ → Bool). f info.seller_id) kept.1 ∙ written-marked i verified message o info;
      role_cache = kept.2;
      perm_cache = kept.3;
      settled = given-Approved w info.seller_id;
    }

settled-Decides :
    (i : ℕ) (status : BusinessInfoStatus) (message : Option String) (o : Office)
    (info : BusinessInfo)
    → find_info i o.infos ≡ some info
    → Decides i status message o info
        (settle info.seller_id status (written i status message o info))
settled-Decides i verified message o info found = approved-Decides i message o info found
settled-Decides i pending message o info found =
    told-Decides i pending message o info found (λ q e. (refl, e))
settled-Decides i rejected message o info found =
    told-Decides i rejected message o info found (λ q e. (refl, e))

-- A decision about a seller who is there is stored, for the row and for the user, and no entry of the
-- guards' caches is dropped. Approved, the seller has the role SELLER; when there is no such role, the
-- call throws and the rest of the decision stays. With any other decision the roles stay as they are.
pub update_business_info_status-Decides :
    (i : ℕ) (status : BusinessInfoStatus) (message : Option String) (o : Office)
    (info : BusinessInfo)
    → find_info i o.infos ≡ some info
    → has_id o.roles.db.users info.seller_id ≡ true
    → Decides i status message o info (update_business_info_status i (some status) message o)
update_business_info_status-Decides i status message o info found there =
    subst (Decides i status message o info)
      (sym (outcome-settle i status message o info found there))
      (settled-Decides i status message o info found)
