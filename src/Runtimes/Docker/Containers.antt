-- ===== src/Runtimes/Docker/Containers.antt =====
-- A run in containers gives back every container and every mount.
use tork.Prelude.{ℕ, String, not, List, [], ◌∷◌, ◌++◌, ◌≡◌, ap, arith, str_eq}
use tork.Task.{Mount, Task}
use tork.Runtimes.Host.{Resource, Event, Host, pure, ensure, lift, record_event, new_uuid, ask}
use tork.Runtimes.Sides.{sharing}
use tork.Runtimes.Tidy.{
  taken, given_back, Owes-after, IsTidy, bind-IsTidy, lift-IsTidy, ensure-IsTidy, new_uuid-IsTidy,
  mounted-IsTidy, run_mounted-IsTidy, asked-Owes,
}
use tork.Runtimes.Docker.{Spec, ContainerMount, container_mounts, with_workdir}
use tork.Runtimes.Plain.{IsPlain, bind-IsPlain, ask-IsPlain, pure-IsPlain, if-IsPlain, held-Owes}
use tork.Runtimes.Docker.Tidy.{image_pull-IsTidy}
use tork.Runtimes.Docker.Images.{image_pull}
use tork.Runtimes.Docker.Run.{
  DockerRuntime, file_names, init_torkdir, init_work_dir, exit_error, run_container,
  create_container, with_container, limited, do_run, run, torkdir_of, volume_of, in_torkdir,
}

module _ (weight : Resource → ℕ) (d : DockerRuntime) where
  init_torkdir-IsPlain : (c : String) (t : Task) → IsPlain weight (init_torkdir d c t)
  unfolding init_torkdir
  init_torkdir-IsPlain c t = ask-IsPlain weight d.answers _ _

  init_work_dir-IsPlain : (c : String) (t : Task) → IsPlain weight (init_work_dir d c t)
  unfolding init_work_dir
  init_work_dir-IsPlain c t =
      elim t.files
        as (λ files. IsPlain weight {A = String} (elim files [
          | [] ↦ pure ""
          | f ∷ fs ↦ ask d.answers "CopyToContainer" (c ∷ t.workdir ∷ file_names (f ∷ fs))
        ])) [
          | [] ↦ pure-IsPlain weight ""
          | f ∷ fs ↦
              ask-IsPlain weight d.answers "CopyToContainer" (c ∷ t.workdir ∷ file_names (f ∷ fs))
        ]

  exit_error-IsPlain : (c code : String) → IsPlain weight (exit_error d c code)
  unfolding exit_error ask
  exit_error-IsPlain c code = record {
    at = λ h. ground (arith, asked-Owes weight h.trace "ContainerLogs" (c ∷ "10" ∷ []));
    running = λ h. ground arith;
  }

  run_container-IsPlain : (t : Task) (c : String) → IsPlain weight (run_container d t c)
  unfolding run_container
  run_container-IsPlain t c =
      bind-IsPlain weight (init_torkdir d c t) _ (init_torkdir-IsPlain c t) λ copied.
        bind-IsPlain weight (init_work_dir d c t) _ (init_work_dir-IsPlain c t) λ filled.
          bind-IsPlain weight (ask d.answers "ContainerStart" (c ∷ [])) _
            (ask-IsPlain weight d.answers _ _)
            λ started.
              bind-IsPlain weight (ask d.answers "ContainerLogs" (c ∷ [])) _
                (ask-IsPlain weight d.answers _ _)
                λ logs.
                  bind-IsPlain weight (ask d.answers "ContainerWait" (c ∷ [])) _
                    (ask-IsPlain weight d.answers _ _)
                    λ code.
                      if-IsPlain weight (str_eq code "0") _ (exit_error d c code)
                        (bind-IsPlain weight
                          (ask d.answers "CopyFromContainer" (c ∷ "/tork/stdout" ∷ []))
                          (λ out. pure (record t { info = record t.info { result = out } }))
                          (ask-IsPlain weight d.answers _ _) λ out. pure-IsPlain weight _)
                        (exit_error-IsPlain c code)

  with_container-IsTidy : (t : Task) (spec : Spec) → IsTidy weight (with_container d t spec)
  unfolding with_container create_container
  with_container-IsTidy t spec = record {
    at = λ h.
        let h' = record_event (Event.asked "ContainerCreate" (spec.image ∷ [])) h in
        Owes-after weight 0 h.trace h'.trace (with_container d t spec h).1.trace
          (asked-Owes weight h.trace "ContainerCreate" (spec.image ∷ []))
          (held-Owes weight t (d.create h.trace spec) (run_container d t) h'
            (run_container-IsPlain t));
  }

  limited-IsTidy : (t : Task) (ms : List ContainerMount) → IsTidy weight (limited d t ms)
  unfolding limited
  limited-IsTidy t ms = record { at = λ h. ground arith }

  in_torkdir-IsTidy :
      (t : Task) (mounts : List ContainerMount) (torkdir : Mount)
      → IsTidy weight (in_torkdir d t mounts torkdir)
  unfolding in_torkdir
  in_torkdir-IsTidy t mounts torkdir =
      bind-IsTidy weight (limited d t (mounts ++ volume_of torkdir ∷ [])) _
        (limited-IsTidy t (mounts ++ volume_of torkdir ∷ []))
        λ spec. with_container-IsTidy (with_workdir t) spec

  do_run-IsTidy : (t : Task) → IsTidy weight (do_run d t)
  unfolding do_run
  do_run-IsTidy t =
      bind-IsTidy weight (ensure (not (str_eq t.id "")) "task id is required") _
        (ensure-IsTidy weight (not (str_eq t.id "")) "task id is required")
        λ named.
          bind-IsTidy weight (image_pull d.answers d.image_ttl t.image) _
            (image_pull-IsTidy weight d t.image)
            λ pulled.
              bind-IsTidy weight (lift (container_mounts t.mounts)) _
                (lift-IsTidy weight (container_mounts t.mounts))
                λ mounts.
                  bind-IsTidy weight (new_uuid d.answers) _ (new_uuid-IsTidy weight d.answers) λ id.
                    mounted-IsTidy weight d.answers (torkdir_of id) (in_torkdir d t mounts)
                      (in_torkdir-IsTidy t mounts)

  -- Whatever the engine answers, and whether the run ends well or with an error, the containers and
  -- mounts that it obtained are those that it had removed, each as often, by any weight that counts
  -- them. A removal counts whether or not it succeeds.
  pub taken-run :
      (t : Task) (h : Host)
      → h.trace ≡ []
      → taken weight (run d t h).1.trace ≡ given_back weight (run d t h).1.trace
  unfolding run taken given_back
  taken-run t h fresh =
      let kept = (run_mounted-IsTidy weight d.answers sharing (do_run d) do_run-IsTidy t).at h in
      omega (arith, kept, ap (taken weight) fresh, ap (given_back weight) fresh)
