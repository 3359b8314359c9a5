-- ===== src/Runtimes/Docker/Tidy.antt =====
-- Looking for an image takes nothing that has to be given back.
use tork.Prelude.{ℕ, String, List, [], ◌∷◌, ◌++◌, arith, Dict, str_eq, ltb, ◌-◌, if◌then◌else◌}
use tork.User.{Time}
use tork.Eval
use tork.Runtimes.Host.{Resource, Event, Host, R, pure, record_event, time_now, ask}
use tork.Runtimes.Tidy.{
  Owes, Owes-after, IsTidy, bind-IsTidy, if-IsTidy, pure-IsTidy, ask-IsTidy, time_now-IsTidy,
  asked-Owes,
}
use tork.Runtimes.Docker.Images.{
  prune_images, image_exists_locally, use_image, image_pull, set_images, has_image, remove_image,
  obtain_image,
}
use tork.Runtimes.Docker.Run.{DockerRuntime}

module _ (weight : Resource → ℕ) (d : DockerRuntime) where
  -- The next image, or the end of the round.
  pruned-Owes :
      (r : Eval.Result String String) (es : List Event) (h : Host) (next : R (Unit {0}))
      (images : Dict Time)
      → Owes weight 0 es h.trace
      → IsTidy weight next
      → Owes weight 0 es
          (elim r as (λ x. Eval.Result String (Unit {0}) × Host) [
            | Eval.Result.ok done ↦ next h
            | Eval.Result.err e ↦ (Eval.Result.err e, record h { images = images })
          ]).1.trace
  pruned-Owes (Eval.Result.ok done) es h next images so_far tidy =
      Owes-after weight 0 es h.trace (next h).1.trace so_far (tidy.at h)
  pruned-Owes (Eval.Result.err e) es h next images so_far tidy = so_far

  remove_image-IsTidy :
      (img : String) (images : Dict Time) (next : R (Unit {0}))
      → IsTidy weight next
      → IsTidy weight (remove_image d.answers img images next)
  unfolding remove_image ask
  remove_image-IsTidy img images next tidy = record {
    at = λ h.
        pruned-Owes (d.answers.answer h.trace "ImageRemove" (img ∷ [])) h.trace
          (record_event (Event.asked "ImageRemove" (img ∷ [])) h) next images
          (asked-Owes weight h.trace "ImageRemove" (img ∷ [])) tidy;
  }

  prune-IsTidy :
      (exclude : String) (kept rest : Dict Time)
      → IsTidy weight (prune_images d.answers d.image_ttl exclude kept rest)
  unfolding prune_images set_images
  prune-IsTidy exclude kept [] = record { at = λ h. omega arith }
  prune-IsTidy exclude kept ((img, used) ∷ rest) =
      let keep_on = prune_images d.answers d.image_ttl exclude (kept ++ (img, used) ∷ []) rest in
      let prune_on = prune_images d.answers d.image_ttl exclude kept rest in
      let kept_on = prune-IsTidy exclude (kept ++ (img, used) ∷ []) rest in
      if-IsTidy weight (str_eq img exclude) keep_on _ kept_on (
        bind-IsTidy weight (time_now d.answers) _ (time_now-IsTidy weight d.answers) λ now.
          if-IsTidy weight (ltb d.image_ttl (now - used))
            (remove_image d.answers img (kept ++ (img, used) ∷ rest) prune_on) keep_on
            (remove_image-IsTidy img (kept ++ (img, used) ∷ rest) prune_on
              (prune-IsTidy exclude kept rest))
            kept_on)

  exists-IsTidy : (name : String) → IsTidy weight (image_exists_locally d.answers name)
  unfolding image_exists_locally
  exists-IsTidy name = record { at = λ h. ground (arith, asked-Owes weight h.trace "ImageList" []) }

  use_image-IsTidy : (name : String) → IsTidy weight (use_image d.answers name)
  unfolding use_image
  use_image-IsTidy name = record { at = λ h. omega arith }

  obtain_image-IsTidy : (name : String) → IsTidy weight (obtain_image d.answers name)
  unfolding obtain_image
  obtain_image-IsTidy name =
      bind-IsTidy weight (image_exists_locally d.answers name) _ (exists-IsTidy name) λ exists_.
        bind-IsTidy weight (if exists_ then pure "" else ask d.answers "ImagePull" (name ∷ []))
          (λ out. use_image d.answers name)
          (if-IsTidy weight exists_ (pure "") (ask d.answers "ImagePull" (name ∷ []))
            (pure-IsTidy weight "") (ask-IsTidy weight d.answers "ImagePull" (name ∷ [])))
          λ out. use_image-IsTidy name

  pub image_pull-IsTidy : (name : String) → IsTidy weight (image_pull d.answers d.image_ttl name)
  unfolding image_pull
  image_pull-IsTidy name = record {
    at = λ h.
        let h' = (prune_images d.answers d.image_ttl name [] h.images h).1 in
        let next : R (Unit {0}) =
          if has_image name h'.images
          then use_image d.answers name
          else obtain_image d.answers name in
        Owes-after weight 0 h.trace h'.trace (next h').1.trace
          ((prune-IsTidy name [] h.images).at h)
          ((if-IsTidy weight (has_image name h'.images) (use_image d.answers name)
              (obtain_image d.answers name) (use_image-IsTidy name) (obtain_image-IsTidy name)).at
            h');
  }
