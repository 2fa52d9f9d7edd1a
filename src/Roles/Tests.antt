-- ===== src/Roles/Tests.antt =====
-- A run of the role service and the guards, and the theorem at a concrete input.
use seatwaves_backend.Common.{
  ◌==◌, if◌then◌else◌, none, ◌≡◌, refl, true, false, List, [], ◌∷◌, some, ok, err, not_acceptable,
}
use seatwaves_backend.Access.Guard.{collect, get_or_set}
use seatwaves_backend.Roles.Data.{Role, Db, find_role, roles_of}
use seatwaves_backend.Roles.Calls.{
  RoleCall, assign, unassign, update, ask_roles, ask_permissions, wait, Reply, role, done, allowed,
  silence, run, call,
}
use seatwaves_backend.Roles.Plain.{plain_call, replay}
use seatwaves_backend.Roles.Service.{
  any, has_roles, has_permissions, get_user_roles, get_user_permissions, unassign_role,
}
use seatwaves_backend.Roles.Guard.{check_roles, role_names}
use seatwaves_backend.Roles.Seller.{
  pending, verified, BusinessInfo, Office, find_info, update_business_info_status,
}
use seatwaves_backend.Roles.Sellers.{Decides, update_business_info_status-Decides}
use seatwaves_backend.Roles.Refinement.{run-replay, no_entry, fresh_state}
use seatwaves_backend.Database.Table.{find_unique}

abbrev seller : Role
seller = record { id = 7; name = "SELLER"; permission_ids = 1 ∷ [] }

abbrev db : Db
db = record {
  users = 1 ∷ 2 ∷ [];
  permissions = record { id = 1; name = "events:write"; group = "events" } ∷ [];
  roles = seller ∷ [];
  user_roles = record { user_id = 2; role_id = 7 } ∷ [];
}

-- A user gets a role, is asked, gets it again, loses it, and is asked again; a role that names a
-- permission twice is refused.
abbrev calls : List RoleCall
calls =
    ask_roles (some ("SELLER" ∷ [])) (some 1)
    ∷ assign 1 7
    ∷ ask_roles (some ("SELLER" ∷ [])) (some 1)
    ∷ ask_permissions ("events:write" ∷ []) (some 1)
    ∷ update 7 (1 ∷ 1 ∷ [])
    ∷ wait 1_000
    ∷ unassign 1 7
    ∷ ask_permissions ("events:write" ∷ []) (some 1)
    ∷ []

abbrev answers : List Reply
answers =
    allowed false
    ∷ done (ok tt)
    ∷ allowed true
    ∷ allowed true
    ∷ role (err not_acceptable)
    ∷ silence
    ∷ done (ok tt)
    ∷ allowed false
    ∷ []

replay_run : replay calls db ≡ answers
unfolding replay plain_call find_role find_unique roles_of has_roles has_permissions get_user_roles
    get_user_permissions collect
replay_run = refl

granted_run : find_role 7 (seller ∷ []) ≡ some seller
unfolding find_role find_unique
granted_run = refl

run-replay_example : run calls (fresh_state db (λ t. true) 5) ≡ replay calls db
run-replay_example = run-replay calls db (λ t. true) 5 (rw granted_run refl, tt) (λ t. refl)

-- When Redis takes no deletion, a user who lost a role is let through by what is cached.
abbrev lost : List RoleCall
lost =
    ask_roles (some ("SELLER" ∷ [])) (some 2)
    ∷ unassign 2 7
    ∷ ask_roles (some ("SELLER" ∷ [])) (some 2)
    ∷ []

undeleted_run :
    run lost (fresh_state db (λ t. false) 5) ≡ allowed true ∷ done (ok tt) ∷ allowed true ∷ []
unfolding run call check_roles get_or_set unassign_role role_names roles_of find_role find_unique
    get_user_roles
undeleted_run = refl

-- A user who was asked, and then became a seller, is refused by what is cached.
abbrev applied : BusinessInfo
applied = record { id = 4; seller_id = 1; status = pending; is_verified = false; message = none }

abbrev office : Office
office = record {
  roles = record {
    db = db;
    can_delete = λ t. true;
    clock = 5;
    role_cache = λ user. if user == 1 then some (record { values = []; set_at = 4 }) else none;
    perm_cache = no_entry;
  };
  infos = applied ∷ [];
  is_seller_verified = λ user. false;
  notices = [];
}

abbrev approved : Office
approved = (update_business_info_status 4 (some verified) none office).1

approved_run : has_roles 1 ("SELLER" ∷ []) any approved.roles.db ≡ ok true
unfolding update_business_info_status find_info has_roles get_user_roles roles_of find_role
    find_unique
approved_run = refl

stale_run : (check_roles (some ("SELLER" ∷ [])) (some 1) approved.roles).0 ≡ false
unfolding update_business_info_status find_info check_roles get_or_set find_unique
stale_run = refl

applied_found : find_info 4 office.infos ≡ some applied
unfolding find_info find_unique
applied_found = refl

update_business_info_status-Decides_example :
    Decides 4 verified none office applied
      (update_business_info_status 4 (some verified) none office)
update_business_info_status-Decides_example =
    update_business_info_status-Decides 4 verified none office applied applied_found refl
