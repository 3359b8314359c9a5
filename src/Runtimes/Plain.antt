-- ===== src/Runtimes/Plain.antt =====
-- Actions between the start of a container and its end: they take nothing, and leave the table of
-- containers alone, so that the removal at the end finds the container.
use mathlib.Core.Path.{subst}
use tork.Prelude.{
  ℕ, String, Bool, true, false, some, List, [], ◌∷◌, ◌++◌, ◌≡◌, refl, sym, ap, ◌∙◌, arith, Dict,
  eq_iff, insert, if◌then◌else◌,
}
use tork.Task.{Task}
use tork.Eval
use tork.Runtimes.Host.{Resource, Event, Host, Answers, R, pure, proceed, ◌>>=◌, ◌>>◌, finally, ask}
use tork.Runtimes.Tidy.{Owes, Owes-after, asked-Owes, acquired-Owes, released-Owes}
use tork.Runtimes.Docker.{lookup, set_running, stop, created}

pub lookup-insert_self :
    {V : Type 0} (k : String) (v : V) (m : Dict V) → lookup k (insert k v m) ≡ some v
unfolding lookup insert
lookup-insert_self k v [] = ground (arith, eq_iff k k)
lookup-insert_self k v ((j, u) ∷ m) =
    ground (arith, eq_iff j k, eq_iff k k, lookup-insert_self k v m)

module _ (weight : Resource → ℕ) where
  -- Neither what is owed nor the table of containers changes.
  pub record IsPlain {A : Type 0} (m : R A) : Type 0 where
    pub at : (h : Host) → Owes weight 0 h.trace (m h).1.trace
    pub running : (h : Host) → (m h).1.running ≡ h.running

  proceed-plain :
      {A B : Type 0}
      → (r : Eval.Result String A) (f : A → R B) → ((a : A) → IsPlain (f a))
      → (h : Host)
      → Owes weight 0 h.trace (proceed r f h).1.trace × ((proceed r f h).1.running ≡ h.running)
  proceed-plain (Eval.Result.ok a) f next h = ((next a).at h, (next a).running h)
  proceed-plain (Eval.Result.err e) f next h = (omega arith, refl)

  pub bind-IsPlain :
      {A B : Type 0}
      → (m : R A) (f : A → R B) → IsPlain m
      → ((a : A) → IsPlain (f a))
      → IsPlain (m >>= f)
  bind-IsPlain m f first next = record {
    at = λ h.
        Owes-after weight 0 h.trace (m h).1.trace ((m >>= f) h).1.trace (first.at h)
          (proceed-plain (m h).0 f next (m h).1).0;
    running = λ h. (proceed-plain (m h).0 f next (m h).1).1 ∙ first.running h;
  }

  pub ask-IsPlain :
      (answers : Answers) (n : String) (as' : List String) → IsPlain (ask answers n as')
  unfolding ask
  ask-IsPlain answers n as' = record {
    at = λ h. asked-Owes weight h.trace n as';
    running = λ h. refl;
  }

  pub pure-IsPlain : {A : Type 0} (a : A) → IsPlain (pure a)
  pure-IsPlain a = record { at = λ h. omega arith; running = λ h. refl }

  pub if-IsPlain :
      {A : Type 0} (b : Bool) (m n : R A) → IsPlain m → IsPlain n → IsPlain (if b then m else n)
  if-IsPlain true m n yes_ no_ = yes_
  if-IsPlain false m n yes_ no_ = no_

  -- A body that leaves the table of containers alone, and the removal of the container after it.
  pub stopped-Owes :
      {A : Type 0}
      → (t : Task) (c : String) (body : R A) (h : Host) → IsPlain body
      → lookup t.id h.running ≡ some c
      → Owes weight (weight (Resource.container c)) h.trace (finally body (stop t) h).1.trace
  unfolding finally stop
  stopped-Owes t c body h plain there =
      let h' = (body h).1 in
      let found : lookup t.id h'.running ≡ some c =
        ap (λ m. lookup t.id m) (plain.running h) ∙ there in
      let after = (finally body (stop t) h).1 in
      let removed : after.trace ≡ h'.trace ++ Event.released (Resource.container c) ∷ [] =
        ground (arith, found) in
      Owes-after weight (weight (Resource.container c)) h.trace h'.trace after.trace (plain.at h) (
        subst (λ es. Owes weight (weight (Resource.container c)) h'.trace es) (sym removed)
          (released-Owes weight h'.trace (Resource.container c)))

  -- A container, from its creation to its removal.
  pub held-Owes :
      {A : Type 0}
      → (t : Task) (r : Eval.Result String String) (body : String → R A) (h : Host)
      → ((c : String) → IsPlain (body c))
      → Owes weight 0 h.trace
          ((created r >>= λ c. set_running t.id c >> finally (body c) (stop t)) h).1.trace
  unfolding created set_running
  held-Owes t (Eval.Result.err e) body h plain = omega arith
  held-Owes t (Eval.Result.ok c) body h plain =
      let h' = record h {
        trace = h.trace ++ Event.acquired (Resource.container c) ∷ [];
        running = insert t.id c h.running;
      } in
      acquired-Owes weight h.trace (finally (body c) (stop t) h').1.trace (Resource.container c)
        (stopped-Owes t c (body c) h' (plain c) (lookup-insert_self t.id c h.running))
