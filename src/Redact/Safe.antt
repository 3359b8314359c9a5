-- ===== src/Redact/Safe.antt =====
-- What is left of secrets.
use mathlib.Core.Path.{subst}
use tork.Prelude.{
  String, false, List, [], ◌∷◌, Dict, All, ◌≡◌, ◌≢◌, ◌⊎◌, inl, inr, refl, sym, arith, str_eq,
  eq_iff, if◌then◌else◌, Bool-cases,
}
use tork.Redact.{redacted_str, Matcher, accepts, hide_secrets, redact_value, redact_vars}

hide_secrets_str : (secrets : Dict String) → hide_secrets secrets redacted_str ≡ redacted_str
unfolding hide_secrets
hide_secrets_str [] = refl
hide_secrets_str ((name, secret) ∷ rest) = ground (arith, hide_secrets_str rest)

-- A value that is replaced, or else one that stays and is none of the secrets.
IsReplaced : Dict String → String → String → Type 0
IsReplaced secrets v r = (r ≡ redacted_str) ⊎ ((r ≡ v) × All (λ s. s.1 ≢ v) secrets)

-- One more secret, which the value is not.
IsReplaced-cons :
    (name secret : String) (rest : Dict String) (v r : String)
    → secret ≢ v
    → IsReplaced rest v r
    → IsReplaced ((name, secret) ∷ rest) v r
unfolding IsReplaced
IsReplaced-cons name secret rest v r ne (inl hidden) = inl hidden
IsReplaced-cons name secret rest v r ne (inr (same, others)) = inr (same, (ne, others))

hide_secrets-IsReplaced :
    (secrets : Dict String) (v : String) → IsReplaced secrets v (hide_secrets secrets v)
unfolding hide_secrets IsReplaced
hide_secrets-IsReplaced [] v = inr (refl, tt)
hide_secrets-IsReplaced ((name, secret) ∷ rest) v = elim (Bool-cases (str_eq secret v)) [
  | inl same ↦ inl (ground (arith, same, hide_secrets_str rest))
  | inr differ ↦
      subst
        (λ b.
          IsReplaced ((name, secret) ∷ rest) v (hide_secrets rest (if b then redacted_str else v)))
        (sym differ)
        (IsReplaced-cons name secret rest v (hide_secrets rest v) (ground (arith, eq_iff secret v))
          (hide_secrets-IsReplaced rest v))
]

module _ (matchers : List Matcher) (secrets : Dict String) where
  -- A variable that is shown: its value is replaced, or its name is not one of those to hide and
  -- its value is none of the secrets.
  abbrev pub IsSafe : String × String → Type 0
  IsSafe kv =
      (kv.1 ≡ redacted_str) ⊎ ((accepts matchers kv.0 ≡ false) × All (λ s. s.1 ≢ kv.1) secrets)

  abbrev pub AllSafe : Dict String → Type 0
  AllSafe vars = All IsSafe vars

  replaced-IsSafe :
      (k v r : String) → accepts matchers k ≡ false → IsReplaced secrets v r → IsSafe (k, r)
  unfolding IsReplaced
  replaced-IsSafe k v r open_ (inl hidden) = inl hidden
  replaced-IsSafe k v r open_ (inr (same, others)) =
      inr (open_, subst (λ x. All (λ s. s.1 ≢ x) secrets) (sym same) others)

  redact_value-IsSafe : (k v : String) → IsSafe (k, redact_value matchers secrets k v)
  unfolding redact_value
  redact_value-IsSafe k v = elim (Bool-cases (accepts matchers k)) [
    | inl hit ↦ inl (ground (arith, hit, hide_secrets_str secrets))
    | inr miss ↦
        subst (λ b. IsSafe (k, hide_secrets secrets (if b then redacted_str else v))) (sym miss)
          (replaced-IsSafe k v (hide_secrets secrets v) miss (hide_secrets-IsReplaced secrets v))
  ]

  -- Every variable is safe to show once the variables are redacted.
  pub redact_vars-AllSafe : (vars : Dict String) → AllSafe (redact_vars matchers vars secrets)
  unfolding redact_vars
  redact_vars-AllSafe [] = tt
  redact_vars-AllSafe ((k, v) ∷ vars) = (redact_value-IsSafe k v, redact_vars-AllSafe vars)
