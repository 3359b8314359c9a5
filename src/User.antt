-- ===== src/User.antt =====
-- user.go and role.go, and the `Permission` of job.go.
pub mod Clone
use tork.Prelude.{ℕ, String, Bool, Option}

-- An instant, as the nanoseconds since the epoch.
abbrev pub Time : Type 0
Time = ℕ

pub record Role : Type 0 where
  pub id : String
  pub slug : String
  pub name : String
  pub created_at : Option Time

pub record User : Type 0 where
  pub id : String
  pub name : String
  pub username : String
  pub password_hash : String
  pub password : String
  pub created_at : Option Time
  pub disabled : Bool

pub record Permission : Type 0 where
  pub role : Option Role
  pub user : Option User
