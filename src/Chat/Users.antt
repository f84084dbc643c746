-- ===== src/Chat/Users.antt =====
-- apps/chat-service/chat_service/auth and repositories/user_repository.py, and `set_user_role` of
-- apps/insights-api/insights_api/services/admin_service.py with its route: who is an admin. The two
-- services share the table, in which a user has one row.
pub mod Mirrored
use inferspect.Prelude.{
  String, Bool, true, false, not, ◌&&◌, ◌||◌, Option, none, some, List, [], ◌∷◌, ◌++◌, str_eq,
  if◌then◌else◌,
}

pub record User : Type 0 where
  pub id : String
  pub email : String
  pub hashed_password : String
  pub role : String
  pub is_active : Bool
  pub is_superuser : Bool
  pub is_verified : Bool

unfoldable pub get_by_email : String → List User → Option User
get_by_email email [] = none
get_by_email email (u ∷ us) =
    let later = get_by_email email us in if str_eq u.email email then some u else later

unfoldable pub get_by_id : String → List User → Option User
get_by_id id [] = none
get_by_id id (u ∷ us) = let later = get_by_id id us in if str_eq u.id id then some u else later

-- A change of the attributes of the row with an id.
unfoldable pub change : String → (User → User) → List User → List User
change id f [] = []
change id f (u ∷ us) = (if str_eq u.id id then f u else u) ∷ change id f us

abbrev pub promoted : User → User
promoted u = record u { role = "admin"; is_superuser = true }

abbrev pub is_admin_already : User → Bool
is_admin_already u = str_eq u.role "admin" && u.is_superuser

abbrev pub created_admin : String → String → String → User
created_admin id email hashed = record {
  id = id;
  email = email;
  hashed_password = hashed;
  role = "admin";
  is_active = true;
  is_superuser = true;
  is_verified = true;
}

abbrev pub promote_found : String → String → String → Option User → List User → List User
promote_found id email hashed none us = us ++ created_admin id email hashed ∷ []
promote_found id email hashed (some u) us =
    if is_admin_already u then us else change u.id promoted us

-- `bootstrap_admin`, with the id and the hash that a new user gets.
unfoldable pub bootstrap_admin :
    (String → String) → String → String → String → List User → List User
bootstrap_admin hash id email password us =
    if str_eq email "" || str_eq password ""
    then us
    else promote_found id email (hash password) (get_by_email email us) us

-- `current_admin_user`, of a user who is active; false is 403.
unfoldable pub is_let_in : User → Bool
is_let_in u = str_eq u.role "admin" || u.is_superuser

abbrev pub is_role : String → Bool
is_role role = str_eq role "user" || str_eq role "admin"

abbrev pub with_role : String → User → User
with_role role u = record u { role = role; is_superuser = str_eq role "admin" }

-- The answers of the route: the user, 400 and 404.
pub data RoleReply : Type 0 where
  changed : User → RoleReply
  bad_request not_found : RoleReply

abbrev pub role_change : Bool → Option User → String → String → List User → RoleReply × List User
role_change false found id role us = (bad_request, us)
role_change true none id role us = (not_found, us)
role_change true (some u) id role us = (changed (with_role role u), change id (with_role role) us)

unfoldable pub set_user_role : String → String → List User → RoleReply × List User
set_user_role id role us = role_change (is_role role) (get_by_id id us) id role us

abbrev pub created_user : String → String → String → User
created_user id email role = record {
  id = id;
  email = email;
  hashed_password = "";
  role = role;
  is_active = true;
  is_superuser = false;
  is_verified = false;
}

abbrev pub created_or : Option User → String → String → String → List User → User × List User
created_or (some u) id email role us = (u, us)
created_or none id email role us =
    (created_user id email role, us ++ created_user id email role ∷ [])

-- `get_or_create_by_email`
unfoldable pub get_or_create_by_email : String → String → String → List User → User × List User
get_or_create_by_email id email role us = created_or (get_by_email email us) id email role us
