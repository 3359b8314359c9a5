-- ===== src/User/Clone.antt =====
-- The `Clone` methods of user.go and role.go, and `Permission.Clone` of job.go, which dereferences
-- a nil user where a permission has neither a role nor a user.
use mathlib.Core.Option
use tork.Prelude.{Option, none, some, List, [], ◌∷◌}
use tork.User.{Role, User, Permission}

unfoldable pub clone_role : Role → Role
clone_role r = record { id = r.id; slug = r.slug; name = r.name; created_at = r.created_at }

-- The password is not among the copied fields, so the copy has the zero value.
unfoldable pub clone_user : User → User
clone_user u = record {
  id = u.id;
  name = u.name;
  username = u.username;
  password_hash = u.password_hash;
  password = "";
  created_at = u.created_at;
  disabled = u.disabled;
}

-- `none` is the panic of a nil dereference.
permission_by : Option Role → Option User → Option Permission
permission_by (some r) u = some (record { role = some (clone_role r); user = none })
permission_by none (some u) = some (record { role = none; user = some (clone_user u) })
permission_by none none = none

unfoldable pub clone_permission : Permission → Option Permission
unfolding permission_by clone_role clone_user
clone_permission p = permission_by p.role p.user

unfoldable pub clone_permissions : List Permission → Option (List Permission)
unfolding clone_permission Option.bind
clone_permissions [] = some []
clone_permissions (p ∷ ps) =
    Option.bind (clone_permission p) λ c. Option.map (λ cs. c ∷ cs) (clone_permissions ps)
