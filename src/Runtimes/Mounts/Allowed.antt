-- ===== src/Runtimes/Mounts/Allowed.antt =====
-- The sources of binds.
use tork.Prelude.{Option, String, Bool, true, false, ◌&&◌, none, some, ◌≡◌, refl, arith, insert}
use tork.Task.{Mount}
use tork.Eval
use tork.Runtimes.Host.{Host, Answers, R, pure, ensure, proceed, ◌>>◌}
use tork.Runtimes.Docker.{lookup}
use tork.Runtimes.Plain.{lookup-insert_self}
use tork.Runtimes.Mounts.{
  BindMounter, is_source_allowed, find_dir, add_source, known_or_added, bind_mount,
}

-- Two guards before an action.
guards-refused :
    {A : Type 0} (a c : Bool) (e e' : String) (next : R A) (h : Host)
    → (a && c) ≡ false
    → (why : String) × ((ensure a e >> (ensure c e' >> next)) h ≡ (Eval.Result.err why, h))
guards-refused true true e e' next h shut = ground (arith, shut)
guards-refused true false e e' next h shut = (e', refl)
guards-refused false c e e' next h shut = (e, refl)

guards-passed :
    {A : Type 0} (a c : Bool) (e e' : String) (next : R A) (h : Host) (x : A)
    → ((ensure a e >> (ensure c e' >> next)) h).0 ≡ Eval.Result.ok x
    → (a ≡ true) × (c ≡ true) × ((next h).0 ≡ Eval.Result.ok x)
guards-passed true true e e' next h x done = (refl, refl, done)
guards-passed true false e e' next h x done = ground (arith, done)
guards-passed false c e e' next h x done = ground (arith, done)

-- What an action ends with is what a continuation that cannot fail makes of its result.
proceed-mounts :
    (r : Eval.Result String String) (src : String) (b b' : BindMounter) (h : Host)
    → (proceed r (λ made. pure (record b { mounts = insert src src b.mounts })) h).0
      ≡ Eval.Result.ok b'
    → lookup src b'.mounts ≡ some src
proceed-mounts (Eval.Result.ok made) src b b' h done =
    ground (arith, done, lookup-insert_self src src b.mounts)
proceed-mounts (Eval.Result.err e) src b b' h done = ground (arith, done)

module _ (equal_fold : String → String → Bool) (answers : Answers)
    (is_not_exist : String → Bool) where
  -- A bind that may not be is an error, and the host is not asked for anything.
  pub bind_mount-refused :
      (mnt : Mount) (b : BindMounter) (h : Host)
      → (b.cfg.allowed && is_source_allowed equal_fold b.cfg mnt.source) ≡ false
      → (e : String) × (bind_mount equal_fold answers is_not_exist mnt b h ≡ (Eval.Result.err e, h))
  unfolding bind_mount
  bind_mount-refused mnt b h shut =
      guards-refused b.cfg.allowed (is_source_allowed equal_fold b.cfg mnt.source) _ _ _ h shut

  known_or_added-mounts :
      (found : Option String) (src : String) (b b' : BindMounter) (h : Host)
      → lookup src b.mounts ≡ found
      → (known_or_added equal_fold answers is_not_exist found src b h).0 ≡ Eval.Result.ok b'
      → (s : String) × (lookup src b'.mounts ≡ some s)
  unfolding known_or_added add_source
  known_or_added-mounts (some known) src b b' h there ended = (known, ground (arith, there, ended))
  known_or_added-mounts none src b b' h there ended =
      let r = find_dir equal_fold answers is_not_exist src h in
      (src, proceed-mounts r.0 src b b' r.1 ended)

  -- A bind that is made was allowed, and is known from then on.
  pub bind_mount-allowed :
      (mnt : Mount) (b b' : BindMounter) (h : Host)
      → (bind_mount equal_fold answers is_not_exist mnt b h).0 ≡ Eval.Result.ok b'
      → (b.cfg.allowed ≡ true)
        × (is_source_allowed equal_fold b.cfg mnt.source ≡ true)
        × ((s : String) × (lookup mnt.source b'.mounts ≡ some s))
  unfolding bind_mount
  bind_mount-allowed mnt b b' h done =
      let (open_, listed, ended) =
        guards-passed b.cfg.allowed (is_source_allowed equal_fold b.cfg mnt.source) _ _ _ h b'
          done in
      (
        open_,
        listed,
        known_or_added-mounts (lookup mnt.source b.mounts) mnt.source b b' h refl ended,
      )
