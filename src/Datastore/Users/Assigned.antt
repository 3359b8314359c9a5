-- ===== src/Datastore/Users/Assigned.antt =====
-- Roles that are assigned and taken back.
use tork.Prelude.{
  String, Bool, true, false, not, none, some, List, [], ◌∷◌, ◌++◌, ◌≡◌, arith, eq_iff,
}
use tork.Exec.{World, ok, err, duplicate_key}
use tork.Datastore.Users.{
  is_assignment, find_first, filter_rows, assign_role, unassign_role, has_role,
}

find_first-append_none :
    {A : Type 0}
    → (p : A → Bool) (l : List A) (a : A) → find_first p l ≡ none
    → p a ≡ true
    → find_first p (l ++ a ∷ []) ≡ some a
unfolding find_first
find_first-append_none p [] a absent hit = ground (arith, hit)
find_first-append_none p (b ∷ l) a absent hit = ground (arith, hit, find_first-append_none p l a)

find_first-filter_rows :
    {A : Type 0}
    → (p : A → Bool) (l : List A) → find_first p (filter_rows (λ a. not (p a)) l) ≡ none
unfolding find_first filter_rows
find_first-filter_rows p [] = ground arith
find_first-filter_rows p (b ∷ l) = ground (arith, find_first-filter_rows p l)

not_found :
    (user role : String) (w : World)
    → has_role user w role ≡ false
    → find_first (is_assignment user role) w.db.user_roles ≡ none
unfolding has_role
not_found user role w absent = ground arith

-- A role that is not assigned can be assigned, and then the user has it, and a second assignment is
-- refused. When it is taken back, the user does not have it.
pub assign_role-has_role :
    (user role : String) (w : World)
    → has_role user w role ≡ false
    → let v = (assign_role user role w).1 in
      ((assign_role user role w).0 ≡ ok tt)
      × (has_role user v role ≡ true)
      × ((assign_role user role v).0 ≡ err duplicate_key)
      × (has_role user (unassign_role user role v).1 role ≡ false)
unfolding assign_role unassign_role has_role
assign_role-has_role user role w absent =
    let test = is_assignment user role in
    let free = not_found user role w absent in
    ground (
      arith,
      free,
      eq_iff user user,
      eq_iff role role,
      find_first-append_none test w.db.user_roles (user, role) free,
      find_first-filter_rows test (w.db.user_roles ++ (user, role) ∷ []),
    )
