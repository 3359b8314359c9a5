-- ===== src/Datastore/Listing/Visible.antt =====
-- Who sees which job.
use tork.Prelude.{
  ℕ, String, Bool, false, none, some, List, [], ◌∷◌, ◌++◌, ◌≡◌, ◌≢◌, refl, All, arith, eq_iff, ◌∙◌,
  ap, Option-cases, inl, inr, length,
}
use tork.User.{User, Permission}
use tork.Exec.{World, ok}
use tork.Job.{JobState, Job}
use tork.Datastore.{set_jobs, sort}
use tork.Datastore.Users.{filter_rows, has_role}
use tork.Datastore.Logs.{Search, parse_query}
use tork.Datastore.Paging.{page_of}
use tork.Datastore.Listing.{
  visible, any_grants, grants, user_id_of, role_id_of, listed, get_jobs, summaries, newer_job,
}

-- A list of permissions for users only, none of which is the one who asks.
abbrev pub IsForOthers : String → Permission → Type 0
IsForOthers username p =
    (p.role ≡ none) × ((u : User) × (p.user ≡ some u) × (u.username ≢ username))

others_grant_nothing :
    (username id : String) (w : World) (ps : List Permission)
    → All (IsForOthers username) ps
    → any_grants username id w ps ≡ false
unfolding any_grants grants
others_grant_nothing username id w [] others = refl
others_grant_nothing username id w (p ∷ ps) (for_other, others) =
    let (user, named, differs) = for_other.1 in
    ground (
      arith,
      for_other.0,
      named,
      eq_iff user.username username,
      others_grant_nothing username id w ps others,
    )

not_visible :
    (username : String) (w : World) (p : Permission) (ps : List Permission)
    → username ≢ ""
    → All (IsForOthers username) (p ∷ ps)
    → visible username w (p ∷ ps) ≡ false
unfolding visible
not_visible username w p ps named others = elim (Option-cases (user_id_of username w)) [
  | inl absent ↦ ground (arith, eq_iff username "", absent)
  | inr (id, found) ↦
      ground (arith, eq_iff username "", found, others_grant_nothing username id w (p ∷ ps) others)
]

filter_rows-without :
    {A : Type 0}
    → (p : A → Bool) (xs ys : List A) (a : A) → p a ≡ false
    → filter_rows p (xs ++ a ∷ ys) ≡ filter_rows p (xs ++ ys)
unfolding filter_rows
filter_rows-without p [] ys a hidden = ground (arith, hidden)
filter_rows-without p (x ∷ xs) ys a hidden = ground (arith, filter_rows-without p xs ys a hidden)

not_listed :
    (search : Search) (state_text : JobState → String) (username term : String) (tags : List String)
    (w : World) (j : Job) (p : Permission) (ps : List Permission)
    → j.permissions ≡ p ∷ ps
    → username ≢ ""
    → All (IsForOthers username) (p ∷ ps)
    → listed search state_text username term tags w j ≡ false
unfolding listed
not_listed search state_text username term tags w j p ps has named others =
    ground (arith, ap (visible username w) has ∙ not_visible username w p ps named others)

-- The list of jobs that a user gets, the counts in it included, is what it would be if a job whose
-- permissions are all for other users were not there, whatever is searched for.
pub get_jobs-hidden :
    (search : Search) (state_text : JobState → String) (username q : String) (page size : ℕ)
    (w : World) (xs ys : List Job) (j : Job) (p : Permission) (ps : List Permission)
    → j.permissions ≡ p ∷ ps
    → username ≢ ""
    → All (IsForOthers username) (p ∷ ps)
    → (get_jobs search state_text username q page size (set_jobs (xs ++ j ∷ ys) w)).0
      ≡ (get_jobs search state_text username q page size (set_jobs (xs ++ ys) w)).0
unfolding get_jobs listed visible any_grants grants has_role role_id_of user_id_of
get_jobs-hidden search state_text username q page size w xs ys j p ps has named others =
    let (term, tags) = parse_query search q in
    ap
      (λ rows.
        ok (page_of (length (sort newer_job rows)) page size (summaries (sort newer_job rows))))
      (filter_rows-without (listed search state_text username term tags w) xs ys j
        (not_listed search state_text username term tags w j p ps has named others))
