-- ===== src/Eval/Keeps.antt =====
-- What an evaluation leaves alone.
use tork.Prelude.{◌≡◌, refl, ap, String, Option, none, some}
use tork.Task.{Task, TaskInfo, TaskNode, of_node, to_node}
use tork.Eval.{
  Evaluator, Scope, Partial, evaluate_task, evaluate_template, eval_field, eval_values, eval_head,
  eval_cmd, evaluate_node, or_stop, Result, ◌>>=◌, eval_name, eval_var, eval_image, eval_queue,
  eval_env, eval_if, eval_texts,
}

-- The fields that an evaluation may change are taken from the one, and all others from the other.
abbrev pub with_evaluated : TaskInfo → TaskInfo → TaskInfo
with_evaluated i i' = record i {
  name = i'.name;
  var = i'.var;
  image = i'.image;
  queue = i'.queue;
  env = i'.env;
  if_ = i'.if_;
  cmd = i'.cmd;
}

-- Whatever holds where a step stops and after the rest holds of the whole.
or_stop-rule {ℓ} :
    {A : Type 0} (P : A → Type ℓ) (e : Option String) (a : A) (rest : Partial A)
    → P a
    → P rest.0
    → P (or_stop e a rest).0
unfolding or_stop
or_stop-rule P none a rest ha hr = hr
or_stop-rule P (some e) a rest ha hr = ha

module _ (ev : Evaluator) (c : Scope) where
  eval_field-rule {ℓ} :
      {A : Type 0} (P : A → Type ℓ) (s : String) (set : String → A) (a : A)
      → P a
      → ((r : String) → P (set r))
      → P (eval_field ev c s set a).0
  unfolding eval_field
  eval_field-rule P s set a ha hs = go (evaluate_template ev s c)
    where
      go :
          (r : Result String String)
          → P
              (elim r as (λ _. Partial _) [
                | Result.ok r ↦ (set r, none)
                | Result.err e ↦ (a, some e)
              ]).0
      go (Result.ok r) = hs r
      go (Result.err e) = ha

  module _ (i : TaskInfo) where
    record Kept (t : TaskInfo) : Type 0 where
      same : t ≡ with_evaluated i t

    module _ (t : TaskInfo) (k : Kept t) where
      name-Kept : Kept (eval_name ev c t).0
      unfolding eval_name
      name-Kept =
          eval_field-rule Kept t.name _ t k
            (λ s. record { same = ap (λ (x : TaskInfo). record x { name = s }) k.same })

      var-Kept : Kept (eval_var ev c t).0
      unfolding eval_var
      var-Kept =
          eval_field-rule Kept t.var _ t k
            (λ s. record { same = ap (λ (x : TaskInfo). record x { var = s }) k.same })

      image-Kept : Kept (eval_image ev c t).0
      unfolding eval_image
      image-Kept =
          eval_field-rule Kept t.image _ t k
            (λ s. record { same = ap (λ (x : TaskInfo). record x { image = s }) k.same })

      queue-Kept : Kept (eval_queue ev c t).0
      unfolding eval_queue
      queue-Kept =
          eval_field-rule Kept t.queue _ t k
            (λ s. record { same = ap (λ (x : TaskInfo). record x { queue = s }) k.same })

      env-Kept : Kept (eval_env ev c t).0
      unfolding eval_env
      env-Kept = record {
        same = ap (λ (x : TaskInfo). record x { env = (eval_values ev c t.env).0 }) k.same;
      }

      if-Kept : Kept (eval_if ev c t).0
      unfolding eval_if
      if-Kept =
          eval_field-rule Kept t.if_ _ t k
            (λ s. record { same = ap (λ (x : TaskInfo). record x { if_ = s }) k.same })

      cmd-Kept : Kept (eval_cmd ev c t).0
      unfolding eval_cmd
      cmd-Kept = record {
        same = ap (λ (x : TaskInfo). record x { cmd = (eval_texts ev c t.cmd).0 }) k.same;
      }

    then-Kept :
        (m : Partial TaskInfo) (f : TaskInfo → Partial TaskInfo)
        → Kept m.0
        → ((t : TaskInfo) → Kept t → Kept (f t).0)
        → Kept (m >>= f).0
    unfolding ◌>>=◌
    then-Kept (a, e) f ha hf = or_stop-rule Kept e a (f a) ha (hf a ha)

    head-Kept : Kept (eval_head ev c i).0
    unfolding eval_head
    head-Kept = then-Kept _ _ (name-Kept i (record { same = refl })) λ t1 k1.
        then-Kept _ _ (var-Kept t1 k1) λ t2 k2. then-Kept _ _ (image-Kept t2 k2) λ t3 k3.
          then-Kept _ _ (queue-Kept t3 k3)
            λ t4 k4. then-Kept _ _ (env-Kept t4 k4) λ t5 k5. if-Kept t5 k5

  record NodeKept (t : Task) (n : TaskNode) : Type 0 where
    info : Kept t.info (of_node n).info
    each : (of_node n).each ≡ t.each

  node-Kept : (t : Task) → NodeKept t (evaluate_node ev c (to_node t)).0
  unfolding evaluate_node
  node-Kept t =
      let k1 = head-Kept t.info in
      let k2 = cmd-Kept t.info (eval_head ev c t.info).0 k1 in
      let P = NodeKept t in
      or_stop-rule P _ _ _ (record { info = k1; each = refl })
        (or_stop-rule P _ _ _ (record { info = k1; each = refl })
          (or_stop-rule P _ _ _ (record { info = k1; each = refl })
            (or_stop-rule P _ _ _ (record { info = k1; each = refl })
              (or_stop-rule P _ _ _ (record { info = k2; each = refl })
                (record { info = k2; each = refl })))))

  -- An evaluation, finished or stopped by an error, changes no field of the task itself but the
  -- name, the variable, the image, the queue, the environment, the condition and the command, and
  -- it does not touch the task of an each.
  pub evaluate_task-keeps :
      (t : Task)
      → ((evaluate_task ev c t).0.info ≡ with_evaluated t.info (evaluate_task ev c t).0.info)
        × ((evaluate_task ev c t).0.each ≡ t.each)
  unfolding evaluate_task
  evaluate_task-keeps t = ((node-Kept t).info.same, (node-Kept t).each)
