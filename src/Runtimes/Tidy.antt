-- ===== src/Runtimes/Tidy.antt =====
-- What is obtained is given back.
use mathlib.Core.Path.{subst}
use tork.Prelude.{
  ℕ, ◌+◌, String, Bool, true, false, List, [], ◌∷◌, ◌++◌, ◌≡◌, refl, arith, if◌then◌else◌,
}
use tork.Task.{Mount, Task, tasks_of, nodes_of}
use tork.Eval
use tork.Runtimes.Host.{
  Resource, Event, Host, Answers, R, pure, fail, ensure, lift, proceed, ◌>>=◌, finally, release,
  record_event, time_now, new_uuid, ask, acquire, mount_on, mount_done, unmount, with_mounts,
}
use tork.Runtimes.Sides.{run_sides, run_all, run_mounted}

module _ (weight : Resource → ℕ) where
  -- The weight of what was obtained, and of what was given back.
  unfoldable pub taken : List Event → ℕ
  taken [] = 0
  taken (Event.acquired r ∷ es) = weight r + taken es
  taken (e ∷ es) = taken es

  unfoldable pub given_back : List Event → ℕ
  given_back [] = 0
  given_back (Event.released r ∷ es) = weight r + given_back es
  given_back (e ∷ es) = given_back es

  taken-append : (es fs : List Event) → taken (es ++ fs) ≡ taken es + taken fs
  unfolding taken
  taken-append [] fs = omega arith
  taken-append (Event.acquired r ∷ es) fs = omega (arith, taken-append es fs)
  taken-append (Event.released r ∷ es) fs = taken-append es fs
  taken-append (Event.asked n as' ∷ es) fs = taken-append es fs

  given_back-append : (es fs : List Event) → given_back (es ++ fs) ≡ given_back es + given_back fs
  unfolding given_back
  given_back-append [] fs = omega arith
  given_back-append (Event.released r ∷ es) fs = omega (arith, given_back-append es fs)
  given_back-append (Event.acquired r ∷ es) fs = given_back-append es fs
  given_back-append (Event.asked n as' ∷ es) fs = given_back-append es fs

  -- From one trace to the other, what is given back outweighs what is taken by `n`.
  abbrev pub Owes : ℕ → List Event → List Event → Type 0
  Owes n es fs = taken fs + given_back es + n ≡ taken es + given_back fs

  pub Owes-after : (n : ℕ) (es fs gs : List Event) → Owes 0 es fs → Owes n fs gs → Owes n es gs
  Owes-after n es fs gs first second = omega (arith, first, second)

  pub asked-Owes :
      (es : List Event) (n : String) (as' : List String) → Owes 0 es (es ++ Event.asked n as' ∷ [])
  unfolding taken given_back
  asked-Owes es n as' = omega (
    arith,
    taken-append es (Event.asked n as' ∷ []),
    given_back-append es (Event.asked n as' ∷ []),
  )

  pub released-Owes :
      (es : List Event) (r : Resource) → Owes (weight r) es (es ++ Event.released r ∷ [])
  unfolding taken given_back
  released-Owes es r =
      omega (
        arith,
        taken-append es (Event.released r ∷ []),
        given_back-append es (Event.released r ∷ []),
      )

  pub acquired-Owes :
      (es fs : List Event) (r : Resource)
      → Owes (weight r) (es ++ Event.acquired r ∷ []) fs
      → Owes 0 es fs
  unfolding taken given_back
  acquired-Owes es fs r back = omega (
    arith,
    back,
    taken-append es (Event.acquired r ∷ []),
    given_back-append es (Event.acquired r ∷ []),
  )

  -- Whatever the host answers, an action gives back what it takes.
  pub record IsTidy {A : Type 0} (m : R A) : Type 0 where
    pub at : (h : Host) → Owes 0 h.trace (m h).1.trace

  pub pure-IsTidy : {A : Type 0} (a : A) → IsTidy (pure a)
  pure-IsTidy a = record { at = λ h. omega arith }

  pub fail-IsTidy : {A : Type 0} (e : String) → IsTidy {A = A} (fail e)
  fail-IsTidy e = record { at = λ h. omega arith }

  pub lift-IsTidy : {A : Type 0} (r : Eval.Result String A) → IsTidy (lift r)
  lift-IsTidy r = record { at = λ h. omega arith }

  pub ensure-IsTidy : (b : Bool) (e : String) → IsTidy (ensure b e)
  ensure-IsTidy true e = pure-IsTidy tt
  ensure-IsTidy false e = fail-IsTidy e

  proceed-Owes :
      {A B : Type 0}
      → (r : Eval.Result String A) (f : A → R B) → ((a : A) → IsTidy (f a))
      → (h : Host) → Owes 0 h.trace (proceed r f h).1.trace
  proceed-Owes (Eval.Result.ok a) f next h = (next a).at h
  proceed-Owes (Eval.Result.err e) f next h = omega arith

  pub bind-IsTidy :
      {A B : Type 0}
      → (m : R A) (f : A → R B) → IsTidy m
      → ((a : A) → IsTidy (f a))
      → IsTidy (m >>= f)
  bind-IsTidy m f first next = record {
    at = λ h.
        Owes-after 0 h.trace (m h).1.trace ((m >>= f) h).1.trace (first.at h)
          (proceed-Owes (m h).0 f next (m h).1);
  }

  pub if-IsTidy :
      {A : Type 0} (b : Bool) (m n : R A) → IsTidy m → IsTidy n → IsTidy (if b then m else n)
  if-IsTidy true m n yes_ no_ = yes_
  if-IsTidy false m n yes_ no_ = no_

  module _ (answers : Answers) where
    pub ask-IsTidy : (n : String) (as' : List String) → IsTidy (ask answers n as')
    unfolding ask
    ask-IsTidy n as' = record { at = λ h. asked-Owes h.trace n as' }

    pub new_uuid-IsTidy : IsTidy (new_uuid answers)
    new_uuid-IsTidy = record { at = λ h. omega arith }

    pub time_now-IsTidy : IsTidy (time_now answers)
    time_now-IsTidy = record { at = λ h. omega arith }

    dir_Owes :
        {A : Type 0}
        → (id : String) (body : R A) (es : List Event) (h : Host)
        → h.trace ≡ es ++ Event.acquired (Resource.directory id) ∷ []
        → IsTidy body
        → Owes 0 es (finally body (release (Resource.directory id)) h).1.trace
    unfolding finally release
    dir_Owes id body es h held tidy =
        let r = Resource.directory id in
        let fs = (body h).1.trace in
        acquired-Owes es (fs ++ Event.released r ∷ []) r (
          subst (λ gs. Owes (weight r) gs (fs ++ Event.released r ∷ [])) held
            (Owes-after (weight r) h.trace fs (fs ++ Event.released r ∷ []) (tidy.at h)
              (released-Owes fs r)))

    opened-Owes :
        {A : Type 0}
        → (r : Eval.Result String String) (body : String → R A) (h : Host)
        → ((id : String) → IsTidy (body id))
        → Owes 0 h.trace
            ((proceed r (λ id h'.
                  (Eval.Result.ok id, record_event (Event.acquired (Resource.directory id)) h'))
                >>= λ id. finally (body id) (release (Resource.directory id)))
              h).1.trace
    opened-Owes (Eval.Result.err e) body h tidy = omega arith
    opened-Owes (Eval.Result.ok id) body h tidy =
        dir_Owes id (body id) h.trace (record_event (Event.acquired (Resource.directory id)) h) refl
          (tidy id)

    -- A directory around a body that is tidy.
    pub held_dir-IsTidy :
        {A : Type 0}
        → (name : String) (as' : List String) (body : String → R A)
        → ((id : String) → IsTidy (body id))
        → IsTidy (
            acquire answers Resource.directory name as' >>= λ id.
            finally (body id) (release (Resource.directory id)))
    unfolding acquire ask
    held_dir-IsTidy name as' body tidy = record {
      at = λ h.
          let h' = record_event (Event.asked name as') h in
          Owes-after 0 h.trace h'.trace _ (asked-Owes h.trace name as')
            (opened-Owes (answers.answer h.trace name as') body h' tidy);
    }

    -- A mount around a body that is tidy.
    mounted-Owes :
        {A : Type 0}
        → (r : Eval.Result String Mount) (body : Mount → R A) → ((m : Mount) → IsTidy (body m))
        → (h : Host)
        → Owes 0 h.trace ((mount_done answers r >>= λ m. finally (body m) (unmount m)) h).1.trace
    unfolding mount_done finally unmount
    mounted-Owes (Eval.Result.err e) body tidy h = omega arith
    mounted-Owes (Eval.Result.ok m) body tidy h =
        let r = Resource.mount m.id in
        let h' = record_event (Event.acquired r) h in
        let h'' = (body m h').1 in
        acquired-Owes h.trace (h''.trace ++ Event.released r ∷ []) r (
          Owes-after (weight r) h'.trace h''.trace (h''.trace ++ Event.released r ∷ [])
            ((tidy m).at h') (released-Owes h''.trace r))

    pub mounted-IsTidy :
        {A : Type 0}
        → (m : Mount) (body : Mount → R A) → ((m' : Mount) → IsTidy (body m'))
        → IsTidy (mount_on answers m >>= λ m'. finally (body m') (unmount m'))
    unfolding mount_on
    mounted-IsTidy m body tidy = record {
      at = λ h. mounted-Owes (answers.mounted h.trace m) body tidy h;
    }

    pub with_mounts-IsTidy :
        {A : Type 0}
        → (done ms : List Mount) (body : List Mount → R A)
        → ((ms' : List Mount) → IsTidy (body ms'))
        → IsTidy (with_mounts answers done ms body)
    unfolding with_mounts
    with_mounts-IsTidy done [] body tidy = tidy done
    with_mounts-IsTidy done (m ∷ ms) body tidy =
        bind-IsTidy (new_uuid answers) _ new_uuid-IsTidy λ id.
          mounted-IsTidy (record m { id = id })
            (λ m'. with_mounts answers (done ++ m' ∷ []) ms body)
            λ m'. with_mounts-IsTidy (done ++ m' ∷ []) ms body tidy

    module _ (prepare : Task → String → Task → Task) (do_run : Task → R Task)
        (tidy : (t : Task) → IsTidy (do_run t)) where
      run_sides-IsTidy :
          (t : Task) (sides : List Task) → IsTidy (run_sides answers prepare do_run t sides)
      unfolding run_sides
      run_sides-IsTidy t [] = pure-IsTidy []
      run_sides-IsTidy t (side ∷ sides) = bind-IsTidy (new_uuid answers) _ new_uuid-IsTidy λ id.
          bind-IsTidy (do_run (prepare t id side)) _ (tidy (prepare t id side)) λ side'.
            bind-IsTidy (run_sides answers prepare do_run t sides) (λ rest. pure (side' ∷ rest))
              (run_sides-IsTidy t sides) λ rest. pure-IsTidy (side' ∷ rest)

      pub run_all-IsTidy : (t : Task) → IsTidy (run_all answers prepare do_run t)
      unfolding run_all
      run_all-IsTidy t =
          bind-IsTidy (run_sides answers prepare do_run t (tasks_of t.pre)) _
            (run_sides-IsTidy t (tasks_of t.pre))
            λ pre.
              bind-IsTidy (do_run (record t { pre = nodes_of pre })) _
                (tidy (record t { pre = nodes_of pre }))
                λ t'.
                  bind-IsTidy (run_sides answers prepare do_run t' (tasks_of t'.post))
                    (λ post. pure (record t' { post = nodes_of post }))
                    (run_sides-IsTidy t' (tasks_of t'.post)) λ post. pure-IsTidy _

      pub run_mounted-IsTidy : (t : Task) → IsTidy (run_mounted answers prepare do_run t)
      unfolding run_mounted
      run_mounted-IsTidy t =
          with_mounts-IsTidy [] t.mounts
            (λ ms.
              run_all answers prepare do_run (record t { info = record t.info { mounts = ms } }))
            λ ms. run_all-IsTidy (record t { info = record t.info { mounts = ms } })
