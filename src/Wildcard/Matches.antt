-- ===== src/Wildcard/Matches.antt =====
-- What a pattern with wildcards means.
use mathlib.Core.Path.{subst}
use tork.Prelude.{
  ℕ, Bool, true, false, ◌&&◌, ◌||◌, [], ◌∷◌, ◌==◌, if◌then◌else◌, ◌≡◌, ◌≢◌, refl, arith, Bool-cases,
  inl, inr,
}
use tork.Wildcard.{Bytes, star}

-- A star stands for any bytes, and every other byte for itself.
pub data Matches : Bytes → Bytes → Type 0 where
  both_empty : Matches [] []
  same_byte : (c : ℕ) {p s : Bytes} → c ≢ star → Matches p s → Matches (c ∷ p) (c ∷ s)
  end_star : {p s : Bytes} → Matches p s → Matches (star ∷ p) s
  grow_star : (c : ℕ) {p s : Bytes} → Matches (star ∷ p) s → Matches (star ∷ p) (c ∷ s)

-- A star before a pattern that `rest` decides, and another byte before one.
unfoldable pub starred : (Bytes → Bool) → Bytes → Bool
starred rest [] = rest []
starred rest (c ∷ s) = rest (c ∷ s) || starred rest s

unfoldable pub led_by : ℕ → (Bytes → Bool) → Bytes → Bool
led_by pc rest [] = false
led_by pc rest (c ∷ s) = pc == c && rest s

-- The same as a function, which tries every way.
unfoldable pub matches : Bytes → Bytes → Bool
unfolding starred led_by
matches [] [] = true
matches [] (c ∷ s) = false
matches (pc ∷ p) s = if pc == star then starred (matches p) s else led_by pc (matches p) s

starred-Matches :
    (p s : Bytes)
    → ((t : Bytes) → matches p t ≡ true → Matches p t)
    → starred (matches p) s ≡ true
    → Matches (star ∷ p) s
unfolding starred
starred-Matches p [] k h = end_star (k [] h)
starred-Matches p (c ∷ s) k h = elim (Bool-cases (matches p (c ∷ s))) [
  | inl here ↦ end_star (k (c ∷ s) here)
  | inr later ↦ grow_star c (starred-Matches p s k (ground arith))
]

led_by-Matches :
    (pc : ℕ) (p s : Bytes)
    → ((t : Bytes) → matches p t ≡ true → Matches p t)
    → pc ≢ star
    → led_by pc (matches p) s ≡ true
    → Matches (pc ∷ p) s
unfolding led_by
led_by-Matches pc p [] k ne h = ground arith
led_by-Matches pc p (c ∷ s) k ne h =
    let same : pc ≡ c = ground arith in
    subst (λ d. Matches (pc ∷ p) (d ∷ s)) same (same_byte pc ne (k s (ground arith)))

pub matches-Matches : (p s : Bytes) → matches p s ≡ true → Matches p s
unfolding matches
matches-Matches [] [] h = both_empty
matches-Matches [] (c ∷ s) h = ground arith
matches-Matches (pc ∷ p) s h = elim (Bool-cases (pc == star)) [
  | inl wild ↦
      let same : star ≡ pc = ground arith in
      subst (λ d. Matches (d ∷ p) s) same (starred-Matches p s (matches-Matches p) (ground arith))
  | inr plain ↦ led_by-Matches pc p s (matches-Matches p) (ground arith) (ground arith)
]

starred-here : (p s : Bytes) → matches p s ≡ true → starred (matches p) s ≡ true
unfolding starred
starred-here p [] h = h
starred-here p (c ∷ s) h = ground arith

pub Matches-matches : {p s : Bytes} → Matches p s → matches p s ≡ true
unfolding matches
Matches-matches both_empty = refl
Matches-matches (same_byte c ne m) = ground (arith, Matches-matches m)
Matches-matches (end_star {p} {s} m) = starred-here p s (Matches-matches m)
Matches-matches (grow_star c m) = ground (arith, Matches-matches m)

pub matches-led_by :
    (pc : ℕ) (p s : Bytes) → pc ≢ star → matches (pc ∷ p) s ≡ led_by pc (matches p) s
unfolding matches
matches-led_by pc p s ne = ground arith

pub matches-starred : (p s : Bytes) → matches (star ∷ p) s ≡ starred (matches p) s
unfolding matches
matches-starred p s = refl
