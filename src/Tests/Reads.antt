-- ===== src/Tests/Reads.antt =====
-- Reads of the repository for a tenant, and a change of a role.
use inferspect.Prelude.{◌≡◌, refl, true, false, List, [], ◌∷◌, All, str_eq}
use inferspect.Chat.Users.{User, is_let_in}
use inferspect.Chat.Users.Mirrored.{
  IsMirrored, UserStep, start_up, give_role, user_steps, user_steps-IsMirrored,
}

abbrev user : User
user = record {
  id = "u1";
  email = "a@x";
  hashed_password = "h";
  role = "user";
  is_active = true;
  is_superuser = false;
  is_verified = true;
}

abbrev changes : List UserStep
changes = start_up "u2" "root@x" "secret" ∷ give_role "u1" "admin" ∷ []

user_steps-IsMirrored_example :
    All
      (λ u. IsMirrored u × (is_let_in u ≡ str_eq u.role "admin"))
      (user_steps (λ s. s) changes (user ∷ []))
user_steps-IsMirrored_example = user_steps-IsMirrored (λ s. s) changes (user ∷ []) (refl, tt)
