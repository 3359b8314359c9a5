-- ===== src/Runtimes/Podman/Tidy.antt =====
-- A run by podman gives back every container, mount and directory.
use tork.Prelude.{
  ℕ, String, Bool, true, false, not, List, [], ◌∷◌, ◌≡◌, refl, ap, arith, Dict, str_eq,
}
use Prim.Native.String.{◌++◌ as str_append}
use tork.Task.{Task}
use tork.Runtimes.Host.{Resource, Event, Host, pure, ensure, lift, ◌>>=◌, record_event, ask}
use tork.Runtimes.Sides.{sharing, run_mounted}
use tork.Runtimes.Docker.{with_workdir}
use tork.Runtimes.Docker.Images.{has_image}
use tork.Runtimes.Tidy.{
  taken, given_back, Owes-after, IsTidy, bind-IsTidy, if-IsTidy, pure-IsTidy, lift-IsTidy,
  ensure-IsTidy, ask-IsTidy, run_mounted-IsTidy, asked-Owes, held_dir-IsTidy,
}
use tork.Runtimes.Plain.{IsPlain, bind-IsPlain, ask-IsPlain, pure-IsPlain, held-Owes}
use tork.Runtimes.Podman.{
  PodmanRuntime, write_files, set_image, pull_request, image_pull, run_container, container_id,
  create_container, with_container, init_dir, in_dir, with_entrypoint, mount_args, create_args,
  do_run, run,
}

module _ (weight : Resource → ℕ) (p : PodmanRuntime) where
  write_files-IsTidy :
      (dir : String) (files : Dict String) → IsTidy weight (write_files p dir files)
  unfolding write_files
  write_files-IsTidy dir [] = pure-IsTidy weight tt
  write_files-IsTidy dir ((name, contents) ∷ rest) =
      bind-IsTidy weight (ask p.answers "MkdirAll" _) _ (ask-IsTidy weight p.answers _ _) λ made.
        bind-IsTidy weight (ask p.answers "WriteFile" _) _ (ask-IsTidy weight p.answers _ _)
          λ written. write_files-IsTidy dir rest

  pull_request-IsTidy : (name : String) → IsTidy weight (pull_request p name)
  unfolding pull_request ask
  pull_request-IsTidy name = record {
    at = λ h.
        let h' = record_event (Event.asked "podman inspect" (name ∷ [])) h in
        ground (
          arith,
          asked-Owes weight h.trace "podman inspect" (name ∷ []),
          asked-Owes weight h'.trace "podman pull" (name ∷ []),
        );
  }

  fetch-IsTidy : (name : String) → IsTidy weight (do pulled ← pull_request p name; set_image p name)
  unfolding set_image
  fetch-IsTidy name =
      bind-IsTidy weight (pull_request p name) (λ pulled. set_image p name)
        (pull_request-IsTidy name) λ pulled. record { at = λ h. omega arith }

  image_pull-IsTidy : (name : String) → IsTidy weight (image_pull p name)
  unfolding image_pull
  image_pull-IsTidy name = record {
    at = λ h.
        (if-IsTidy weight (has_image name h.images) (pure tt) _ (pure-IsTidy weight tt)
            (fetch-IsTidy name)).at
          h;
  }

  ensure-IsPlain : (b : Bool) (e : String) → IsPlain weight (ensure b e)
  ensure-IsPlain true e = pure-IsPlain weight tt
  ensure-IsPlain false e = record { at = λ h. omega arith; running = λ h. refl }

  run_container-IsPlain :
      (dir : String) (t : Task) (c : String) → IsPlain weight (run_container p dir t c)
  unfolding run_container
  run_container-IsPlain dir t c =
      bind-IsPlain weight (ask p.answers "podman start" (c ∷ [])) _
        (ask-IsPlain weight p.answers _ _)
        λ started.
          bind-IsPlain weight (ask p.answers "podman logs" _) _ (ask-IsPlain weight p.answers _ _)
            λ logs.
              bind-IsPlain weight (ask p.answers "podman inspect" _) _
                (ask-IsPlain weight p.answers _ _)
                λ code.
                  bind-IsPlain weight (ensure (str_eq (p.trim code) "0") _) _
                    (ensure-IsPlain (str_eq (p.trim code) "0") _)
                    λ fine.
                      bind-IsPlain weight (ask p.answers "ReadFile" (str_append dir "/output" ∷ []))
                        (λ out. pure (record t { info = record t.info { result = out } }))
                        (ask-IsPlain weight p.answers _ _) λ out. pure-IsPlain weight _

  with_container-IsTidy :
      (dir : String) (t : Task) (args : List String) → IsTidy weight (with_container p dir t args)
  unfolding with_container create_container
  with_container-IsTidy dir t args = record {
    at = λ h.
        let h' = record_event (Event.asked "podman create" args) h in
        Owes-after weight 0 h.trace h'.trace (with_container p dir t args h).1.trace
          (asked-Owes weight h.trace "podman create" args)
          (held-Owes weight t (container_id p (p.answers.answer h.trace "podman create" args))
            (run_container p dir t) h' (run_container-IsPlain dir t));
  }

  init_dir-IsTidy : (dir : String) (t : Task) → IsTidy weight (init_dir p dir t)
  unfolding init_dir
  init_dir-IsTidy dir t =
      bind-IsTidy weight (ask p.answers "Create" _) _ (ask-IsTidy weight p.answers _ _) λ output.
        bind-IsTidy weight (ask p.answers "Chmod" _) _ (ask-IsTidy weight p.answers _ _) λ open_.
          bind-IsTidy weight (ask p.answers "Create" _) _ (ask-IsTidy weight p.answers _ _)
            λ progress.
              bind-IsTidy weight (ask p.answers "Chmod" _) _ (ask-IsTidy weight p.answers _ _)
                λ open'. ask-IsTidy weight p.answers "WriteFile" _

  in_dir-IsTidy : (t : Task) (dir : String) → IsTidy weight (in_dir p t dir)
  unfolding in_dir
  in_dir-IsTidy t dir = bind-IsTidy weight (init_dir p dir t) _ (init_dir-IsTidy dir t) λ ready.
      bind-IsTidy weight (image_pull p t.image) _ (image_pull-IsTidy t.image) λ pulled.
        bind-IsTidy weight (lift (mount_args t.mounts)) _ (lift-IsTidy weight (mount_args t.mounts))
          λ mounts.
            let t' = with_workdir (with_entrypoint t) in
            bind-IsTidy weight (write_files p dir t.files)
              (λ written. with_container p dir t' (create_args p.privileged dir t' mounts))
              (write_files-IsTidy dir t.files)
              λ written. with_container-IsTidy dir t' (create_args p.privileged dir t' mounts)

  do_run-IsTidy : (t : Task) → IsTidy weight (do_run p t)
  unfolding do_run
  do_run-IsTidy t =
      held_dir-IsTidy weight p.answers "MkdirAll" (t.id ∷ []) (in_dir p t) (in_dir-IsTidy t)

  run-IsTidy : (t : Task) → IsTidy weight (run p t)
  unfolding run
  run-IsTidy t =
      bind-IsTidy weight (ensure (not (str_eq t.id "")) "task id is required") _
        (ensure-IsTidy weight (not (str_eq t.id "")) _)
        λ named.
          bind-IsTidy weight (ensure (not (str_eq t.image "")) "task image is required")
            (λ imaged. run_mounted p.answers sharing (do_run p) t)
            (ensure-IsTidy weight (not (str_eq t.image "")) _)
            λ imaged. run_mounted-IsTidy weight p.answers sharing (do_run p) do_run-IsTidy t

  -- Whatever podman and the operating system answer, and whether the run ends well or with an error, the
  -- containers, mounts and directories that it obtained are those that it had removed, each as often, by
  -- any weight that counts them. A removal counts whether or not it succeeds.
  pub taken-run_podman :
      (t : Task) (h : Host)
      → h.trace ≡ []
      → taken weight (run p t h).1.trace ≡ given_back weight (run p t h).1.trace
  unfolding taken given_back
  taken-run_podman t h fresh =
      omega (arith, (run-IsTidy t).at h, ap (taken weight) fresh, ap (given_back weight) fresh)
