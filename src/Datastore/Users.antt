-- ===== src/Datastore/Users.antt =====
-- datastore/postgres/postgres.go: users, roles, and the roles of users
pub mod Assigned
use tork.Prelude.{
  String, Bool, true, false, not, ◌&&◌, ◌||◌, Option, none, some, List, [], ◌∷◌, ◌++◌, str_eq,
  if◌then◌else◌,
}
use tork.User.{Role, User}
use tork.Exec.{
  World, Env, M, user_not_found, role_not_found, duplicate_key, pure, fail, need, gets, ◌>>=◌, ◌>>◌,
  time_now, new_uuid,
}

-- The first row that passes a test.
unfoldable pub find_first {ℓ} : {A : Type ℓ} → (A → Bool) → List A → Option A
find_first p [] = none
find_first p (a ∷ as') = if p a then some a else find_first p as'

unfoldable pub filter_rows {ℓ} : {A : Type ℓ} → (A → Bool) → List A → List A
filter_rows p [] = []
filter_rows p (a ∷ as') = let rest = filter_rows p as' in if p a then a ∷ rest else rest

abbrev pub set_users : List User → World → World
set_users us w = record w { db = record w.db { users = us } }

abbrev pub set_roles : List Role → World → World
set_roles rs w = record w { db = record w.db { roles = rs } }

abbrev pub set_user_roles : List (String × String) → World → World
set_user_roles rs w = record w { db = record w.db { user_roles = rs } }

-- GetUser: by the name of the user or by the identifier
unfoldable pub get_user : String → M User
unfolding find_first
get_user uid w =
    need (find_first (λ u. str_eq u.username uid || str_eq u.id uid) w.db.users) user_not_found w

-- GetRole
unfoldable pub get_role : String → M Role
unfolding find_first
get_role id w =
    need (find_first (λ r. str_eq r.id id || str_eq r.slug id) w.db.roles) role_not_found w

-- A row whose key or whose unique column is taken is refused.
insert_user : User → M (Unit {0})
unfolding find_first
insert_user u w =
    elim (find_first (λ v. str_eq v.id u.id || str_eq v.username u.username) w.db.users) [
      | some v ↦ fail duplicate_key w
      | none ↦
          pure tt (set_users (w.db.users ++ record u { password = ""; disabled = false } ∷ []) w)
    ]

insert_role : Role → M (Unit {0})
unfolding find_first
insert_role r w = elim (find_first (λ s. str_eq s.id r.id || str_eq s.slug r.slug) w.db.roles) [
  | some s ↦ fail duplicate_key w
  | none ↦ pure tt (set_roles (w.db.roles ++ r ∷ []) w)
]

module _ (env : Env) where
  -- CreateUser, which gives its argument an identifier and a time
  unfoldable pub create_user : User → M User
  unfolding insert_user
  create_user u = do
    id ← new_uuid env
    now ← time_now env
    let u' = record u { id = id; created_at = some now }
    insert_user u'
    pure u'

  -- CreateRole
  unfoldable pub create_role : Role → M Role
  unfolding insert_role
  create_role r = do
    id ← new_uuid env
    now ← time_now env
    let r' = record r { id = id; created_at = some now }
    insert_role r'
    pure r'

abbrev pub is_assignment : String → String → String × String → Bool
is_assignment user_id role_id row = str_eq row.0 user_id && str_eq row.1 role_id

-- AssignRole: a role is assigned to a user once at most
unfoldable pub assign_role : String → String → M (Unit {0})
unfolding find_first
assign_role user_id role_id w = elim (find_first (is_assignment user_id role_id) w.db.user_roles) [
  | some row ↦ fail duplicate_key w
  | none ↦ pure tt (set_user_roles (w.db.user_roles ++ (user_id, role_id) ∷ []) w)
]

-- UnassignRole
unfoldable pub unassign_role : String → String → M (Unit {0})
unfolding filter_rows
unassign_role user_id role_id w = pure tt (
    set_user_roles (filter_rows (λ row. not (is_assignment user_id role_id row)) w.db.user_roles) w)

-- Whether a user has a role.
unfoldable pub has_role : String → World → String → Bool
unfolding find_first
has_role user_id w role_id = elim (find_first (is_assignment user_id role_id) w.db.user_roles) [
  | some row ↦ true
  | none ↦ false
]

-- GetUserRoles
unfoldable pub get_user_roles : String → M (List Role)
unfolding filter_rows
get_user_roles user_id = gets λ w. filter_rows (λ r. has_role user_id w r.id) w.db.roles
