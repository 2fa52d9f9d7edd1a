-- ===== src/Roles/Seller.antt =====
-- `updateBusinessInfoStatus` of `users/users.service.ts`, which gives a seller the role of one.
use Prim.Native.String.{String}
use seatwaves_backend.Common.{
  has_id, ℕ, Bool, true, false, List, ◌∷◌, Option, none, some, ◌==◌, if◌then◌else◌, bad_request,
  not_found, failure, Action, gets, or_throw, throw, modify, ◌>>=◌, ◌>>◌,
}
use seatwaves_backend.Database.Table.{find_unique, update}
use seatwaves_backend.Roles.Data.{Role, State, find_name}
use seatwaves_backend.Roles.Service.{insert_user_role}

pub data BusinessInfoStatus : Type 0 where
  pending verified rejected : BusinessInfoStatus

pub record BusinessInfo : Type 0 where
  pub id : ℕ
  pub seller_id : ℕ
  pub status : BusinessInfoStatus
  pub is_verified : Bool
  pub message : Option String

-- `is_seller_verified` is a column of the users; a notice is for a user, and says approved or rejected.
pub record Office : Type 0 where
  pub roles : State
  pub infos : List BusinessInfo
  pub is_seller_verified : ℕ → Bool
  pub notices : List (ℕ × Bool)

abbrev pub info_id : BusinessInfo → ℕ
info_id b = b.id

unfoldable pub find_info : ℕ → List BusinessInfo → Option BusinessInfo
find_info = find_unique info_id

-- `status === 'VERIFIED'`
abbrev pub is_verifying : BusinessInfoStatus → Bool
is_verifying verified = true
is_verifying _ = false

-- A message that is `undefined` is not written.
abbrev pub decide : BusinessInfoStatus → Option String → BusinessInfo → BusinessInfo
decide status message b = record b {
  status = status;
  is_verified = is_verifying status;
  message = elim message [ none ↦ b.message | some m ↦ some m ];
}

abbrev pub mark : ℕ → Bool → (ℕ → Bool) → ℕ → Bool
mark user b old other = if user == other then b else old other

-- The two updates of the transaction.
abbrev pub write_decision : ℕ → ℕ → BusinessInfoStatus → Option String → Office → Office
write_decision i seller status message o = record o {
  infos = update info_id i (decide status message) o.infos;
  is_seller_verified = mark seller (is_verifying status) o.is_seller_verified;
}

abbrev pub inform : ℕ → Bool → Action Office (Unit {0})
inform seller b = modify (λ (o : Office). record o { notices = (seller, b) ∷ o.notices })

-- The upsert, which drops nothing from the caches.
abbrev pub grant : ℕ → Role → Action Office (Unit {0})
grant seller r = modify (λ (o : Office). record o {
  roles = record o.roles { db = insert_user_role seller r.id o.roles.db };
})

abbrev pub give_role : ℕ → Action Office (Unit {0})
give_role seller = gets (λ (o : Office). find_name "SELLER" o.roles.db.roles) >>= λ found.
    or_throw found not_found >>= λ r. grant seller r >> inform seller true

abbrev pub settle : ℕ → BusinessInfoStatus → Action Office (Unit {0})
settle seller verified = give_role seller
settle seller _ = inform seller false

-- `user.update` throws when there is no seller.
abbrev pub proceed : ℕ → ℕ → BusinessInfoStatus → Option String → Bool → Action Office (Unit {0})
proceed i seller status message false = throw failure
proceed i seller status message true =
    modify (write_decision i seller status message) >> settle seller status

abbrev pub on_info :
    ℕ → BusinessInfoStatus → Option String → Option BusinessInfo → Action Office (Unit {0})
on_info i status message none = throw not_found
on_info i status message (some info) =
    gets (λ (o : Office). has_id o.roles.db.users info.seller_id)
    >>= proceed i info.seller_id status message

-- A status that is none of the three stands as nothing.
unfoldable pub update_business_info_status :
    ℕ → Option BusinessInfoStatus → Option String → Action Office (Unit {0})
update_business_info_status i input message = or_throw input bad_request >>= λ status.
    gets (λ (o : Office). find_info i o.infos) >>= on_info i status message
