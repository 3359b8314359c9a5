-- ===== src/Runtimes/Shell/Environ.antt =====
-- `buildEnv` of runtime/shell/shell.go, over bytes: the variables that the process of a task gets, from
-- those of the process that starts it.
use tork.Prelude.{Option, none, some, List, [], ◌∷◌, ◌++◌, ◌≡◌, ◌==◌, if◌then◌else◌}
use tork.Wildcard.{Bytes}

-- "REEXEC_"
abbrev pub prefix_bytes : Bytes
prefix_bytes = 82 ∷ 69 ∷ 69 ∷ 88 ∷ 69 ∷ 67 ∷ 95 ∷ []

-- `strings.SplitN(entry, "=", 2)`, where there is a "=".
unfoldable pub split : Bytes → Option (Bytes × Bytes)
split [] = none
split (c ∷ cs) =
    let rest = split cs in
    if c == 61 then some ([], cs) else elim rest [ none ↦ none | some (k, v) ↦ some (c ∷ k, v) ]

-- `strings.TrimPrefix`, if `strings.HasPrefix`.
unfoldable pub without_prefix : Bytes → Bytes → Option Bytes
without_prefix [] k = some k
without_prefix (p ∷ ps) [] = none
without_prefix (p ∷ ps) (c ∷ cs) = if p == c then without_prefix ps cs else none

unfoldable pub keep_entry : Option Bytes → Bytes → Option (List Bytes) → Option (List Bytes)
keep_entry none v rest = rest
keep_entry (some k) v none = none
keep_entry (some k) v (some es) = some ((k ++ 61 ∷ v) ∷ es)

-- `none` is the error for an entry with no "=".
unfoldable pub build_env : List Bytes → Option (List Bytes)
unfolding split without_prefix keep_entry
build_env [] = some []
build_env (entry ∷ entries) =
    let rest = build_env entries in
    elim (split entry) [
      | none ↦ none
      | some (k, v) ↦ keep_entry (without_prefix prefix_bytes k) v rest
    ]

-- "WORKDIR=", "PATH=" and "HOME="
abbrev pub workdir_bytes : Bytes
workdir_bytes = 87 ∷ 79 ∷ 82 ∷ 75 ∷ 68 ∷ 73 ∷ 82 ∷ 61 ∷ []

abbrev pub path_bytes : Bytes
path_bytes = 80 ∷ 65 ∷ 84 ∷ 72 ∷ 61 ∷ []

abbrev pub home_bytes : Bytes
home_bytes = 72 ∷ 79 ∷ 77 ∷ 69 ∷ 61 ∷ []

-- The environment that `reexecRun` gives the process of the task, from the values of WORKDIR, PATH and
-- HOME and the entries that it finds; `none` is a fatal error.
unfoldable pub process_entries : Bytes → Bytes → Bytes → List Bytes → Option (List Bytes)
unfolding build_env
process_entries [] path home found = none
process_entries (b ∷ bs) path home found = elim (build_env found) [
  | none ↦ none
  | some es ↦
      some (es ++ (workdir_bytes ++ b ∷ bs) ∷ (path_bytes ++ path) ∷ (home_bytes ++ home) ∷ [])
]

-- A variable of the task, which is passed on under the prefix, or one of the host.
pub data Var : Type 0 where
  own foreign : Bytes → Bytes → Var

-- A name with no "=", and, if it is the host's, one that does not start with the prefix.
abbrev pub IsNamed : Var → Type 0
IsNamed (own k v) = split k ≡ none
IsNamed (foreign k v) = (split k ≡ none) × (without_prefix prefix_bytes k ≡ none)

unfoldable pub entries : List Var → List Bytes
entries [] = []
entries (own k v ∷ vs) = (prefix_bytes ++ (k ++ 61 ∷ v)) ∷ entries vs
entries (foreign k v ∷ vs) = (k ++ 61 ∷ v) ∷ entries vs

unfoldable pub own_entries : List Var → List Bytes
own_entries [] = []
own_entries (own k v ∷ vs) = (k ++ 61 ∷ v) ∷ own_entries vs
own_entries (foreign k v ∷ vs) = own_entries vs
