-- ===== src/Chat/Users/Mirrored.antt =====
-- Who is an admin, after any sequence of changes.
use inferspect.Prelude.{
  ◌≡◌, refl, ap, ◌∙◌, inl, inr, Bool-cases, String, Bool, true, false, ◌||◌, Option, none, some,
  List, [], ◌∷◌, ◌++◌, All, str_eq,
}
use inferspect.Chat.Users.{
  User, get_by_email, get_by_id, change, promoted, is_admin_already, created_admin, promote_found,
  bootstrap_admin, is_role, role_change, is_let_in, with_role, set_user_role,
}

-- `is_superuser` mirrors the role.
abbrev pub IsMirrored : User → Type 0
IsMirrored u = u.is_superuser ≡ str_eq u.role "admin"

-- The changes of roles that the services make: a start of the chat service, and an operator's change.
pub data UserStep : Type 0 where
  start_up : (id : String) → (email : String) → (password : String) → UserStep
  give_role : (id : String) → (role : String) → UserStep

module _ (hash : String → String) where
  unfoldable pub user_step : UserStep → List User → List User
  user_step (start_up id email password) us = bootstrap_admin hash id email password us
  user_step (give_role id role) us = (set_user_role id role us).1

  unfoldable pub user_steps : List UserStep → List User → List User
  unfolding user_step
  user_steps [] us = us
  user_steps (s ∷ ss) us = user_steps ss (user_step s us)

or_self : (b : Bool) → (b || b) ≡ b
or_self true = refl
or_self false = refl

change-All :
    (id : String) (f : User → User) (us : List User)
    → ((u : User) → IsMirrored (f u))
    → All IsMirrored us
    → All IsMirrored (change id f us)
unfolding change
change-All id f [] good h = tt
change-All id f (u ∷ us) good h = elim (Bool-cases (str_eq u.id id)) [
  | inl same ↦ rw same (good u, change-All id f us good h.1)
  | inr apart ↦ rw apart (h.0, change-All id f us good h.1)
]

snoc-All :
    (us : List User) (u : User) → All IsMirrored us → IsMirrored u → All IsMirrored (us ++ u ∷ [])
snoc-All [] u h good = (good, tt)
snoc-All (v ∷ us) u h good = (h.0, snoc-All us u h.1 good)

promote_found-All :
    (id email hashed : String) (found : Option User) (us : List User)
    → All IsMirrored us
    → All IsMirrored (promote_found id email hashed found us)
promote_found-All id email hashed none us h = snoc-All us (created_admin id email hashed) h refl
promote_found-All id email hashed (some u) us h = elim (Bool-cases (is_admin_already u)) [
  | inl already ↦ rw already h
  | inr no_admin ↦ rw no_admin (change-All u.id promoted us (λ v. refl) h)
]

role_change-All :
    (fine : Bool) (found : Option User) (id role : String) (us : List User)
    → All IsMirrored us
    → All IsMirrored (role_change fine found id role us).1
role_change-All false found id role us h = h
role_change-All true none id role us h = h
role_change-All true (some u) id role us h = change-All id (with_role role) us (λ v. refl) h

module _ (hash : String → String) where
  user_step-All :
      (s : UserStep) (us : List User) → All IsMirrored us → All IsMirrored (user_step hash s us)
  unfolding user_step bootstrap_admin set_user_role
  user_step-All (start_up id email password) us h =
      elim (Bool-cases (str_eq email "" || str_eq password "")) [
        | inl unset ↦ rw unset h
        | inr given ↦
            rw given (promote_found-All id email (hash password) (get_by_email email us) us h)
      ]
  user_step-All (give_role id role) us h =
      role_change-All (is_role role) (get_by_id id us) id role us h

  user_steps-All :
      (ss : List UserStep) (us : List User)
      → All IsMirrored us
      → All IsMirrored (user_steps hash ss us)
  unfolding user_steps
  user_steps-All [] us h = h
  user_steps-All (s ∷ ss) us h = user_steps-All ss (user_step hash s us) (user_step-All s us h)

let_in-All :
    (us : List User)
    → All IsMirrored us
    → All (λ u. IsMirrored u × (is_let_in u ≡ str_eq u.role "admin")) us
unfolding is_let_in
let_in-All [] h = tt
let_in-All (u ∷ us) h = (
  (h.0, ap (λ b. str_eq u.role "admin" || b) h.0 ∙ or_self (str_eq u.role "admin")),
  let_in-All us h.1,
)

-- Whatever sequence of starts of the chat service and of changes of roles by an operator there is, on a
-- table in which the flag `is_superuser` mirrors the role it does so afterwards, and, of the active users,
-- exactly those with the role admin are let in as admins.
pub user_steps-IsMirrored :
    (hash : String → String) (ss : List UserStep) (us : List User)
    → All IsMirrored us
    → All (λ u. IsMirrored u × (is_let_in u ≡ str_eq u.role "admin")) (user_steps hash ss us)
user_steps-IsMirrored hash ss us h =
    let_in-All (user_steps hash ss us) (user_steps-All hash ss us h)
