-- ===== src/Runtimes/Docker/Images.antt =====
-- runtime/docker/docker.go: the images of a runtime, which are pulled one after the other. Whose
-- credentials a pull uses (auth.go, reference.go) is left out.
use tork.Prelude.{
  ◌-◌, String, Bool, false, ◌||◌, List, [], ◌∷◌, ◌++◌, Dict, insert, str_eq, ltb, if◌then◌else◌,
}
use tork.User.{Time}
use tork.Eval
use tork.Runtimes.Host.{Event, Answers, R, pure, ◌>>=◌, record_event, time_now, ask}

unfoldable pub has_image : String → Dict Time → Bool
has_image name [] = false
has_image name ((k, t) ∷ rest) = str_eq k name || has_image name rest

unfoldable pub contains : String → List String → Bool
contains name [] = false
contains name (tag ∷ tags) = str_eq tag name || contains name tags

unfoldable pub set_images : Dict Time → R (Unit {0})
set_images images h = (Eval.Result.ok tt, record h { images = images })

module _ (answers : Answers) where
  -- The removal of an image, and what follows; if it fails, these images stay.
  unfoldable pub remove_image : String → Dict Time → R (Unit {0}) → R (Unit {0})
  unfolding ask
  remove_image img images next h =
      let (r, h') = ask answers "ImageRemove" (img ∷ []) h in
      elim r [
        | Eval.Result.ok done ↦ next h'
        | Eval.Result.err e ↦ (Eval.Result.err e, record h' { images = images })
      ]

  -- `imageExistsLocally`
  unfoldable pub image_exists_locally : String → R Bool
  unfolding contains
  image_exists_locally name h =
      let h' = record_event (Event.asked "ImageList" []) h in
      elim (answers.listed h.trace "ImageList") [
        | Eval.Result.err e ↦ (Eval.Result.err e, h')
        | Eval.Result.ok tags ↦ (Eval.Result.ok (contains name tags), h')
      ]

  unfoldable pub use_image : String → R (Unit {0})
  use_image name = do
    now ← time_now answers
    λ h. (Eval.Result.ok tt, record h { images = insert name now h.images })

  -- `pruneImages`: an image whose removal fails ends the round; those removed before are forgotten.
  unfoldable pub prune_images : Time → String → Dict Time → Dict Time → R (Unit {0})
  unfolding remove_image set_images
  prune_images image_ttl exclude kept [] = set_images kept
  prune_images image_ttl exclude kept ((img, used) ∷ rest) =
      let keep_on = prune_images image_ttl exclude (kept ++ (img, used) ∷ []) rest in
      let prune_on = prune_images image_ttl exclude kept rest in
      if str_eq img exclude then keep_on else (do
        now ← time_now answers
        if ltb image_ttl (now - used)
            then remove_image img (kept ++ (img, used) ∷ rest) prune_on
            else keep_on)

  -- An image that is not known to be there is looked for, and pulled if it is not there.
  unfoldable pub obtain_image : String → R (Unit {0})
  unfolding image_exists_locally use_image ask
  obtain_image name = do
    exists_ ← image_exists_locally name
    out ← (if exists_ then pure "" else ask answers "ImagePull" (name ∷ []))
    use_image name

  -- `doPullRequest`: an error of the pruning is logged.
  unfoldable pub image_pull : Time → String → R (Unit {0})
  unfolding prune_images has_image use_image obtain_image
  image_pull image_ttl name h =
      let (pruned, h') = prune_images image_ttl name [] h.images h in
      (if has_image name h'.images then use_image name else obtain_image name) h'
