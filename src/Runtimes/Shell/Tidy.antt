-- ===== src/Runtimes/Shell/Tidy.antt =====
-- A run by the shell runtime removes every directory that it made.
use Prim.Native.String.{◌++◌ as str_append}
use tork.Prelude.{ℕ, String, Option, none, some, [], ◌∷◌, ◌++◌, ◌≡◌, ap, arith, Dict}
use tork.Task.{Task}
use tork.Runtimes.Host.{Resource, Host, R, pure, ◌>>=◌, ◌>>◌, finally, ask}
use tork.Runtimes.Sides.{alone, run_all}
use tork.Runtimes.Docker.{set_running}
use tork.Runtimes.Tidy.{
  taken, given_back, IsTidy, bind-IsTidy, pure-IsTidy, fail-IsTidy, ask-IsTidy, run_all-IsTidy,
  held_dir-IsTidy,
}
use tork.Runtimes.Shell.{
  ShellRuntime, unsupported, refuse, forget, write_files, in_dir, with_dir, command_of, process_env,
  do_run, run,
}

module _ (weight : Resource → ℕ) (s : ShellRuntime) where
  write_files-IsTidy :
      (dir : String) (files : Dict String) → IsTidy weight (write_files s dir files)
  unfolding write_files
  write_files-IsTidy dir [] = pure-IsTidy weight tt
  write_files-IsTidy dir ((name, contents) ∷ rest) =
      bind-IsTidy weight (ask s.answers "WriteFile" _) _ (ask-IsTidy weight s.answers _ _)
        λ written. write_files-IsTidy dir rest

  process-IsTidy :
      (t : Task) (dir : String)
      → IsTidy weight (do
        pid ← ask s.answers "Start" (command_of s dir ++ process_env s dir t)
        set_running t.id pid
        ended ← ask s.answers "Wait" (pid ∷ [])
        out ← ask s.answers "ReadFile" (str_append dir "/stdout" ∷ [])
        pure (record t { info = record t.info { result = out } }))
  unfolding set_running
  process-IsTidy t dir =
      bind-IsTidy weight (ask s.answers "Start" _) _ (ask-IsTidy weight s.answers _ _) λ pid.
        bind-IsTidy weight (set_running t.id pid) _ (record { at = λ h. omega arith })
          λ set.
            bind-IsTidy weight (ask s.answers "Wait" (pid ∷ [])) _ (ask-IsTidy weight s.answers _ _)
              λ ended.
                bind-IsTidy weight (ask s.answers "ReadFile" (str_append dir "/stdout" ∷ []))
                  (λ out. pure (record t { info = record t.info { result = out } }))
                  (ask-IsTidy weight s.answers _ _) λ out. pure-IsTidy weight _

  in_dir-IsTidy : (t : Task) (dir : String) → IsTidy weight (in_dir s t dir)
  unfolding in_dir
  in_dir-IsTidy t dir =
      bind-IsTidy weight (ask s.answers "WriteFile" _) _ (ask-IsTidy weight s.answers _ _) λ output.
        bind-IsTidy weight (ask s.answers "WriteFile" _) _ (ask-IsTidy weight s.answers _ _)
          λ progress.
            bind-IsTidy weight (write_files s dir t.files) _ (write_files-IsTidy dir t.files)
              λ files.
                bind-IsTidy weight (ask s.answers "WriteFile" _) _ (ask-IsTidy weight s.answers _ _)
                  λ script. process-IsTidy t dir

  with_dir-IsTidy : (t : Task) → IsTidy weight (with_dir s t)
  unfolding with_dir
  with_dir-IsTidy t = held_dir-IsTidy weight s.answers "MkdirTemp" [] (in_dir s t) (in_dir-IsTidy t)

  do_run-IsTidy : (t : Task) → IsTidy weight (do_run s t)
  unfolding do_run forget finally
  do_run-IsTidy t = record { at = λ h. (with_dir-IsTidy t).at h }

  refuse-IsTidy :
      {A : Type 0} (why : Option String) (m : R A) → IsTidy weight m → IsTidy weight (refuse why m)
  refuse-IsTidy none m tidy = tidy
  refuse-IsTidy (some e) m tidy = fail-IsTidy weight e

  run-IsTidy : (t : Task) → IsTidy weight (run s t)
  unfolding run
  run-IsTidy t =
      refuse-IsTidy (unsupported t) (run_all s.answers alone (do_run s) t)
        (run_all-IsTidy weight s.answers alone (do_run s) do_run-IsTidy t)

  -- Whatever the operating system answers, and whether the run ends well or with an error, the
  -- directories that it made are those that it had removed, each as often, by any weight that counts
  -- them.
  pub taken-run_shell :
      (t : Task) (h : Host)
      → h.trace ≡ []
      → taken weight (run s t h).1.trace ≡ given_back weight (run s t h).1.trace
  unfolding taken given_back
  taken-run_shell t h fresh =
      omega (arith, (run-IsTidy t).at h, ap (taken weight) fresh, ap (given_back weight) fresh)
