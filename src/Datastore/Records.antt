-- ===== src/Datastore/Records.antt =====
-- Columns of the tables that hold a value as JSON (datastore/postgres/record.go and
-- datastore/postgres/postgres.go). encoding/json is a parameter, one Codec for each type.
use tork.Prelude.{
  String, Bool, true, false, Option, none, some, List, [], ◌∷◌, ◌≡◌, ◌∙◌, refl, sym, ap, arith,
  if◌then◌else◌,
}
use tork.Eval
pub mod Tasks
pub mod Jobs
pub mod Scheduled

pub record Codec (A : Type 0) : Type 0 where
  pub encode : A → Eval.Result String String
  pub decode : String → Eval.Result String A

abbrev pub Fallible : Type 0 → Type 0
Fallible A = Eval.Result String A

abbrev pub fine : {A : Type 0} → A → Fallible A
fine a = Eval.Result.ok a

infixl 5 ◌>>=◌
abbrev pub ◌>>=◌ : {A B : Type 0} → Fallible A → (A → Fallible B) → Fallible B
Eval.Result.ok a >>= f = f a
Eval.Result.err e >>= f = Eval.Result.err e

unfoldable pub some_text : Fallible String → Fallible (Option String)
some_text (Eval.Result.ok s) = Eval.Result.ok (some s)
some_text (Eval.Result.err e) = Eval.Result.err e

unfoldable pub is_none : {A : Type 0} → Option A → Bool
is_none none = true
is_none (some a) = false

unfoldable pub is_empty : {A : Type 0} → List A → Bool
is_empty [] = true
is_empty (a ∷ as') = false

module _ {A : Type 0} (c : Codec A) where
  -- A value that is nil is a column with no text.
  unfoldable pub column : Bool → A → Fallible (Option String)
  unfolding some_text
  column is_nil a = if is_nil then Eval.Result.ok none else some_text (c.encode a)

  unfoldable pub read : A → Option String → Fallible A
  read nil_value none = Eval.Result.ok nil_value
  read nil_value (some s) = c.decode s

  -- What is written of a value is read as this value.
  abbrev pub IsReadBack : A → Type 0
  IsReadBack a = (s : String) → c.encode a ≡ Eval.Result.ok s → c.decode s ≡ Eval.Result.ok a

  read-some_text :
      (nil_value a : A) (r : Fallible String) (col : Option String)
      → IsReadBack a
      → c.encode a ≡ r
      → some_text r ≡ Eval.Result.ok col
      → read nil_value col ≡ Eval.Result.ok a
  unfolding some_text read
  read-some_text nil_value a (Eval.Result.ok s) col back encoded written =
      ground (arith, back s encoded, written)
  read-some_text nil_value a (Eval.Result.err e) col back encoded written = ground (arith, written)

  pub read-column :
      (is_nil : Bool) (nil_value a : A) (col : Option String)
      → (is_nil ≡ true → a ≡ nil_value)
      → IsReadBack a
      → column is_nil a ≡ Eval.Result.ok col
      → read nil_value col ≡ Eval.Result.ok a
  unfolding column read
  read-column true nil_value a col nil_only back written = ground (arith, nil_only refl, written)
  read-column false nil_value a col nil_only back written =
      read-some_text nil_value a (c.encode a) col back refl written

-- The steps of a result that is fine.
pub bind-ok :
    {A B : Type 0} (m : Fallible A) (f : A → Fallible B) (b : B)
    → (m >>= f) ≡ Eval.Result.ok b
    → (a : A) × (m ≡ Eval.Result.ok a) × (f a ≡ Eval.Result.ok b)
bind-ok (Eval.Result.ok a) f b h = (a, refl, h)
bind-ok (Eval.Result.err e) f b h = ground (arith, h)

pub bind-step :
    {A B : Type 0} (m : Fallible A) (f : A → Fallible B) (a : A) (r : Fallible B)
    → m ≡ Eval.Result.ok a
    → f a ≡ r
    → (m >>= f) ≡ r
bind-step m f a r first next = ap (λ m'. m' >>= f) first ∙ next

-- A column is written, and what follows.
pub write_column :
    {A R : Type 0} {P : Type 0}
    → (cd : Codec A) (is_nil : Bool) (nil_value a : A) (f : Option String → Fallible R) (r : R)
    → (is_nil ≡ true → a ≡ nil_value)
    → IsReadBack cd a
    → (column cd is_nil a >>= f) ≡ fine r
    → ((col : Option String) → read cd nil_value col ≡ fine a → f col ≡ fine r → P)
    → P
write_column cd is_nil nil_value a f r nil_only back written next =
    let (col, col_written, rest) = bind-ok (column cd is_nil a) f r written in
    next col (read-column cd is_nil nil_value a col nil_only back col_written) rest

-- The same of a column that is written whatever the value.
pub write_text :
    {A R : Type 0} {P : Type 0}
    → (cd : Codec A) (a : A) (f : String → Fallible R) (r : R) → IsReadBack cd a
    → (cd.encode a >>= f) ≡ fine r
    → ((s : String) → cd.decode s ≡ fine a → f s ≡ fine r → P)
    → P
write_text cd a f r back written next =
    let (s, s_written, rest) = bind-ok (cd.encode a) f r written in next s (back s s_written) rest

pub is_none-nil : {A : Type 0} (o : Option A) → is_none o ≡ true → o ≡ none
unfolding is_none
is_none-nil none absent = refl
is_none-nil (some a) absent = ground (arith, absent)

pub is_empty-nil : {A : Type 0} (xs : List A) → is_empty xs ≡ true → xs ≡ []
unfolding is_empty
is_empty-nil [] absent = refl
is_empty-nil (x ∷ xs) absent = ground (arith, absent)
