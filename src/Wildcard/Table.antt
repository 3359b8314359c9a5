-- ===== src/Wildcard/Table.antt =====
-- The table decides what a pattern means.
use mathlib.Core.Path.{subst}
use tork.Prelude.{
  ℕ, suc, Bool, true, false, ◌&&◌, ◌||◌, List, [], ◌∷◌, ◌==◌, if◌then◌else◌, ◌≡◌, ◌≢◌, ◌↔◌, refl,
  ap, ◌∙◌, sym, arith, length, Bool-cases, inl, inr,
}
use tork.Wildcard.{
  Bytes, star, bytes_eq, is_wild_pattern, row_rest, next_row, falses, last_row, last_cell, match,
}
use tork.Wildcard.Matches.{
  Matches, matches, matches-led_by, matches-starred, matches-Matches, Matches-matches,
}
use tork.Wildcard.Rows.{reach, reach_rest, reach-cons, row_rest-star, row_rest-byte}

next_row-reach :
    (pc : ℕ) (p s : Bytes) (d : Bool) (above : List Bool)
    → length above ≡ length s
    → reach (next_row pc s (d ∷ above)) p s ≡ reach (d ∷ above) (pc ∷ p) s
unfolding next_row
next_row-reach pc p s d above n = elim (Bool-cases (pc == star)) [
  | inl wild ↦
      let same : star ≡ pc = ground arith in
      subst (λ c. reach (next_row c s (d ∷ above)) p s ≡ reach (d ∷ above) (c ∷ p) s) same
        (row_rest-star p s d d above n (λ h. h)
          ∙ ap (λ b. d && b || reach_rest above (star ∷ p) s) (sym (matches-starred p s))
          ∙ sym (reach-cons d above (star ∷ p) s))
  | inr plain ↦
      let ne : pc ≢ star = ground arith in
      ground (
        arith,
        row_rest-byte pc p s d false above n ne,
        reach-cons d above (pc ∷ p) s,
        matches-led_by pc p s ne,
      )
]

length-row_rest :
    (pc : ℕ) (s : Bytes) (diagonal left : Bool) (above : List Bool)
    → length above ≡ length s
    → length (row_rest pc s diagonal above left) ≡ length s
unfolding row_rest
length-row_rest pc [] diagonal left above n = refl
length-row_rest pc (c ∷ s) diagonal left [] n = ground arith
length-row_rest pc (c ∷ s) diagonal left (up ∷ above) n =
    omega (arith, length-row_rest pc s up _ above (omega (arith, n)))

last_cell-reach :
    (s : Bytes) (d : Bool) (above : List Bool)
    → length above ≡ length s
    → last_cell (d ∷ above) ≡ reach (d ∷ above) [] s
unfolding last_cell reach matches
last_cell-reach [] d [] n = ground arith
last_cell-reach [] d (b ∷ above) n = ground arith
last_cell-reach (c ∷ s) d [] n = ground arith
last_cell-reach (c ∷ s) d (b ∷ above) n = ground (arith, last_cell-reach s b above)

last_row-reach :
    (p s : Bytes) (d : Bool) (above : List Bool)
    → length above ≡ length s
    → last_cell (last_row p s (d ∷ above)) ≡ reach (d ∷ above) p s
unfolding last_row
last_row-reach [] s d above n = last_cell-reach s d above n
last_row-reach (pc ∷ p) s d above n =
    let first = if pc == star then d else false in
    last_row-reach p s first (row_rest pc s d above first) (length-row_rest pc s d first above n)
    ∙ next_row-reach pc p s d above n

length-falses : (s : Bytes) → length (falses s) ≡ length s
unfolding falses
length-falses [] = refl
length-falses (c ∷ s) = ap suc (length-falses s)

reach-falses : (p s t : Bytes) → reach (falses s) p t ≡ false
unfolding falses reach
reach-falses p [] t = refl
reach-falses p (c ∷ s) [] = refl
reach-falses p (c ∷ s) (d ∷ t) = reach-falses p s t

reach_rest-falses : (p s : Bytes) → reach_rest (falses s) p s ≡ false
unfolding reach_rest falses
reach_rest-falses p [] = refl
reach_rest-falses p (c ∷ s) = reach-falses p (c ∷ s) s

table-matches : (p s : Bytes) → last_cell (last_row p s (true ∷ falses s)) ≡ matches p s
table-matches p s =
    last_row-reach p s true (falses s) (length-falses s)
    ∙ ground (arith, reach-cons true (falses s) p s, reach_rest-falses p s)

star-matches : (s : Bytes) → matches (star ∷ []) s ≡ true
unfolding matches
star-matches [] = refl
star-matches (c ∷ s) = star-matches s

plain-matches : (p s : Bytes) → is_wild_pattern p ≡ false → matches p s ≡ bytes_eq p s
unfolding is_wild_pattern matches
plain-matches [] [] h = refl
plain-matches [] (c ∷ s) h = refl
plain-matches (pc ∷ p) [] h = ground arith
plain-matches (pc ∷ p) (c ∷ s) h = ground (arith, plain-matches p s)

empty-matches : (s : Bytes) → matches [] s ≡ bytes_eq s []
unfolding matches
empty-matches [] = refl
empty-matches (c ∷ s) = refl

bytes_eq-eq : (p s : Bytes) → bytes_eq p s ≡ true → p ≡ s
bytes_eq-eq [] [] h = refl
bytes_eq-eq [] (c ∷ s) h = ground arith
bytes_eq-eq (c ∷ p) [] h = ground arith
bytes_eq-eq (c ∷ p) (d ∷ s) h = ground (arith, bytes_eq-eq p s)

lone_star-matches : (p s : Bytes) → bytes_eq p (star ∷ []) ≡ true → matches p s ≡ true
lone_star-matches p s h = rw (bytes_eq-eq p (star ∷ []) h) (star-matches s)

no_pattern-matches : (p s : Bytes) → bytes_eq p [] ≡ true → matches p s ≡ bytes_eq s []
no_pattern-matches p s h = rw (bytes_eq-eq p [] h) (empty-matches s)

match-matches : (p s : Bytes) → match p s ≡ matches p s
unfolding match
match-matches p s =
    ground
      (arith, lone_star-matches p s, no_pattern-matches p s, table-matches p s, plain-matches p s)

-- `Match` says yes to exactly those texts that the pattern stands for, each star of it standing for
-- any bytes and every other byte for itself.
pub match-Matches : (p s : Bytes) → (match p s ≡ true) ↔ Matches p s
match-Matches p s = (
  λ h. matches-Matches p s (sym (match-matches p s) ∙ h),
  λ m. match-matches p s ∙ Matches-matches m,
)
