-- ===== src/Eval.antt =====
-- internal/eval/eval.go: templates and expressions in the fields of a task. The expression
-- language and the regular expressions are libraries, and stand here as an `Evaluator`.
use Prim.Native.String.{slice, len, ◌++◌ as str_append}
pub mod Keeps
use tork.Prelude.{ℕ, String, Option, none, some, List, [], ◌∷◌, Dict, str_eq, if◌then◌else◌}
use tork.Task.{
  Webhook, TaskInfo, SubJobInfo, TaskNode, TaskNodes, ParallelTask, SubJobTask, node, nil, cons,
  no_parallel, parallel_task, no_subjob, subjob_task, Task, to_node, of_node,
}

pub data Result {ℓ} (E : Type 0) (A : Type ℓ) : Type ℓ where
  ok : A → Result E A
  err : E → Result E A

-- The values of `any` that expressions meet: a text, a map of texts, the `index` and `value` of an
-- each item, a slice, and a value of any other Go type.
mutual
  pub data Value : Type 0 where
    text : String → Value
    texts : Dict String → Value
    item : String → Value → Value
    slice_of : Values → Value
    opaque : ℕ → Value

  pub data Values : Type 0 where
    no_values : Values
    one_more : Value → Values → Values

-- The map[string]any that names are looked up in.
abbrev pub Scope : Type 0
Scope = Dict Value

-- The four indices of a match: the whole tag, and the expression in it.
pub record Match : Type 0 where
  pub start_tag : ℕ
  pub end_tag : ℕ
  pub start_expr : ℕ
  pub end_expr : ℕ

-- `find_all` is `exprMatcher.FindAllStringSubmatchIndex`, `submatch` is the first group of
-- `exprMatcher.FindStringSubmatch`, `run_expr` is `expr.Compile` and `expr.Run` over the two
-- functions of funcs.go and a scope, and `sprint` is `fmt.Sprintf("%v", …)`.
pub record Evaluator : Type 0 where
  pub find_all : String → List Match
  pub submatch : String → Option String
  pub run_expr : String → Scope → Result String Value
  pub sprint : Value → String

-- A value that code changed in place, with the error at which it stopped.
abbrev pub Partial {ℓ} : Type ℓ → Type ℓ
Partial A = A × Option String

-- Stop with what there is, or go on.
unfoldable pub or_stop {ℓ} : {A : Type ℓ} → Option String → A → Partial A → Partial A
or_stop none a rest = rest
or_stop (some e) a rest = (a, some e)

infixl 5 ◌>>=◌
unfoldable pub ◌>>=◌ {ℓ} : {A : Type ℓ} → Partial A → (A → Partial A) → Partial A
unfolding or_stop
(a, e) >>= f = or_stop e a (f a)

module _ (ev : Evaluator) where
  sanitize_expr : String → String
  sanitize_expr ex = elim (ev.submatch ex) [ some inner ↦ inner | none ↦ ex ]

  unfoldable pub evaluate_expr : String → Scope → Result String Value
  unfolding sanitize_expr
  evaluate_expr ex c = ev.run_expr (sanitize_expr ex) c

  -- The loop over the matches: `loc` is where the text not yet copied begins.
  template_loop : String → Scope → ℕ → String → List Match → Result String String
  template_loop ex c loc buf [] = ok (str_append buf (slice ex loc (len ex)))
  template_loop ex c loc buf (m ∷ ms) = elim (evaluate_expr (slice ex m.start_expr m.end_expr) c) [
    | ok v ↦
        template_loop ex c m.end_tag
          (str_append (str_append buf (slice ex loc m.start_tag)) (ev.sprint v)) ms
    | err e ↦ err e
  ]

  unfoldable pub evaluate_template : String → Scope → Result String String
  unfolding template_loop
  evaluate_template ex c = if str_eq ex "" then ok "" else template_loop ex c 0 "" (ev.find_all ex)

  module _ (c : Scope) where
    -- `r, err := EvaluateTemplate(t.F, c)`, and `t.F = r` if there is no error.
    eval_field : {A : Type 0} → String → (String → A) → A → Partial A
    unfolding evaluate_template
    eval_field s set t = elim (evaluate_template s c) [ ok r ↦ (set r, none) | err e ↦ (t, some e) ]

    -- Every value of a map, each written back as it is evaluated.
    eval_values : Dict String → Partial (Dict String)
    unfolding evaluate_template
    eval_values [] = ([], none)
    eval_values ((k, v) ∷ m) =
        let (m', e) = eval_values m in
        elim (evaluate_template v c) [ ok r ↦ ((k, r) ∷ m', e) | err x ↦ ((k, v) ∷ m, some x) ]

    eval_texts : List String → Partial (List String)
    unfolding evaluate_template
    eval_texts [] = ([], none)
    eval_texts (v ∷ vs) =
        let (vs', e) = eval_texts vs in
        elim (evaluate_template v c) [ ok r ↦ (r ∷ vs', e) | err x ↦ (v ∷ vs, some x) ]

    eval_name : TaskInfo → Partial TaskInfo
    unfolding eval_field
    eval_name t = eval_field t.name (λ s. record t { name = s }) t

    eval_var : TaskInfo → Partial TaskInfo
    unfolding eval_field
    eval_var t = eval_field t.var (λ s. record t { var = s }) t

    eval_image : TaskInfo → Partial TaskInfo
    unfolding eval_field
    eval_image t = eval_field t.image (λ s. record t { image = s }) t

    eval_queue : TaskInfo → Partial TaskInfo
    unfolding eval_field
    eval_queue t = eval_field t.queue (λ s. record t { queue = s }) t

    eval_env : TaskInfo → Partial TaskInfo
    unfolding eval_values
    eval_env t = let (env, e) = eval_values t.env in (record t { env = env }, e)

    eval_if : TaskInfo → Partial TaskInfo
    unfolding eval_field
    eval_if t = eval_field t.if_ (λ s. record t { if_ = s }) t

    -- The fields of the task itself that come before its lists, in this order.
    unfoldable pub eval_head : TaskInfo → Partial TaskInfo
    unfolding eval_name eval_var eval_image eval_queue eval_env eval_if
    eval_head t = do
      t1 ← eval_name t
      t2 ← eval_var t1
      t3 ← eval_image t2
      t4 ← eval_queue t3
      t5 ← eval_env t4
      eval_if t5

    unfoldable pub eval_cmd : TaskInfo → Partial TaskInfo
    unfolding eval_texts
    eval_cmd t = let (cmd, e) = eval_texts t.cmd in (record t { cmd = cmd }, e)

    eval_url : Webhook → Partial Webhook
    unfolding eval_field
    eval_url w = eval_field w.url (λ s. record w { url = s }) w

    eval_headers : Webhook → Partial Webhook
    unfolding eval_values
    eval_headers w = let (hs, e) = eval_values w.headers in (record w { headers = hs }, e)

    eval_webhooks : List Webhook → Partial (List Webhook)
    unfolding eval_url eval_headers
    eval_webhooks [] = ([], none)
    eval_webhooks (w ∷ ws) =
        let (w', e1) = eval_url w >>= eval_headers in
        let (ws', e2) = eval_webhooks ws in or_stop e1 (w' ∷ ws) (w' ∷ ws', e2)

    eval_subjob_name : SubJobInfo → Partial SubJobInfo
    unfolding eval_field
    eval_subjob_name s = eval_field s.name (λ n. record s { name = n }) s

    eval_inputs : SubJobInfo → Partial SubJobInfo
    unfolding eval_values
    eval_inputs s = let (m, e) = eval_values s.inputs in (record s { inputs = m }, e)

    eval_secrets : SubJobInfo → Partial SubJobInfo
    unfolding eval_values
    eval_secrets s = let (m, e) = eval_values s.secrets in (record s { secrets = m }, e)

    eval_subjob_webhooks : SubJobInfo → Partial SubJobInfo
    unfolding eval_webhooks
    eval_subjob_webhooks s =
        let (ws, e) = eval_webhooks s.webhooks in (record s { webhooks = ws }, e)

    -- The tasks of a sub-job are left for the sub-job itself.
    unfoldable pub eval_subjob : SubJobInfo → Partial SubJobInfo
    unfolding eval_subjob_name eval_inputs eval_secrets eval_subjob_webhooks
    eval_subjob s = do
      s1 ← eval_subjob_name s
      s2 ← eval_inputs s1
      s3 ← eval_secrets s2
      eval_subjob_webhooks s3

    unfoldable mutual
      unfolding eval_head eval_cmd eval_subjob

      pub evaluate_node : TaskNode → Partial TaskNode
      evaluate_node (node i pre post parallel each subjob) =
          let (i1, e1) = eval_head i in
          let (pre', e2) = evaluate_nodes pre in
          let (post', e3) = evaluate_nodes post in
          let (parallel', e4) = evaluate_parallel parallel in
          let (i2, e5) = eval_cmd i1 in
          let (subjob', e6) = evaluate_subjob subjob in
          or_stop e1 (node i1 pre post parallel each subjob) (
            or_stop e2 (node i1 pre' post parallel each subjob) (
              or_stop e3 (node i1 pre' post' parallel each subjob) (
                or_stop e4 (node i1 pre' post' parallel' each subjob) (
                  or_stop e5 (node i2 pre' post' parallel' each subjob)
                    (node i2 pre' post' parallel' each subjob', e6)))))

      pub evaluate_nodes : TaskNodes → Partial TaskNodes
      evaluate_nodes nil = (nil, none)
      evaluate_nodes (cons n ns) =
          let (n', e1) = evaluate_node n in
          let (ns', e2) = evaluate_nodes ns in or_stop e1 (cons n' ns) (cons n' ns', e2)

      pub evaluate_parallel : ParallelTask → Partial ParallelTask
      evaluate_parallel no_parallel = (no_parallel, none)
      evaluate_parallel (parallel_task tasks completions) =
          let (tasks', e) = evaluate_nodes tasks in (parallel_task tasks' completions, e)

      pub evaluate_subjob : SubJobTask → Partial SubJobTask
      evaluate_subjob no_subjob = (no_subjob, none)
      evaluate_subjob (subjob_task s tasks) =
          let (s', e) = eval_subjob s in (subjob_task s' tasks, e)

    -- The task is changed in place, also where the evaluation stops with an error.
    unfoldable pub evaluate_task : Task → Partial Task
    unfolding evaluate_node or_stop ◌>>=◌
    evaluate_task t = let (n, e) = evaluate_node (to_node t) in (of_node n, e)
