-- ===== src/Wildcard/Rows.antt =====
-- What the rows of the table say.
use tork.Prelude.{
  ℕ, Bool, true, false, ◌&&◌, ◌||◌, List, [], ◌∷◌, ◌==◌, ◌≡◌, ◌≢◌, refl, ap, ◌∙◌, sym, arith,
  length,
}
use tork.Wildcard.{Bytes, star, cell, row_rest}
use tork.Wildcard.Matches.{matches, starred, led_by, matches-led_by}

-- The cells of a row that are true, each with the rest of the text at it.
unfoldable pub reach : List Bool → Bytes → Bytes → Bool
reach [] p s = false
reach (b ∷ row) p [] = b && matches p []
reach (b ∷ row) p (c ∷ s) = b && matches p (c ∷ s) || reach row p s

-- The same of the cells right of the first one.
unfoldable pub reach_rest : List Bool → Bytes → Bytes → Bool
unfolding reach
reach_rest row p [] = false
reach_rest row p (c ∷ s) = reach row p s

pub reach-cons :
    (b : Bool) (row : List Bool) (p s : Bytes)
    → reach (b ∷ row) p s ≡ (b && matches p s || reach_rest row p s)
unfolding reach reach_rest
reach-cons b row p [] = ground arith
reach-cons b row p (c ∷ s) = refl

regroup : (l d e m u r : Bool) → (l || (e && d && m || u || r)) ≡ (l || d && (e && m) || (u || r))
regroup l d e m u r = ground arith

pub row_rest-star :
    (p s : Bytes) (diagonal left : Bool) (above : List Bool)
    → length above ≡ length s
    → (diagonal ≡ true → left ≡ true)
    → reach (left ∷ row_rest star s diagonal above left) p s
      ≡ (left && starred (matches p) s || reach_rest above (star ∷ p) s)
unfolding reach reach_rest row_rest matches cell
row_rest-star p [] diagonal left above n h = ground arith
row_rest-star p (c ∷ s) diagonal left [] n h = ground arith
row_rest-star p (c ∷ s) diagonal left (up ∷ above) n h =
    ground (arith, row_rest-star p s up (diagonal || up || left) above)

cell-plain :
    (pc c : ℕ) (diagonal up left : Bool)
    → pc ≢ star
    → cell pc c diagonal up left ≡ (pc == c && diagonal)
unfolding cell
cell-plain pc c diagonal up left ne = ground arith

pub row_rest-byte :
    (pc : ℕ) (p s : Bytes) (diagonal left : Bool) (above : List Bool)
    → length above ≡ length s
    → pc ≢ star
    → reach (left ∷ row_rest pc s diagonal above left) p s
      ≡ (left && matches p s || diagonal && led_by pc (matches p) s || reach_rest above (pc ∷ p) s)
unfolding reach reach_rest row_rest led_by
row_rest-byte pc p [] diagonal left above n h = ground arith
row_rest-byte pc p (c ∷ s) diagonal left [] n h = ground arith
row_rest-byte pc p (c ∷ s) diagonal left (up ∷ above) n h =
    let l = left && matches p (c ∷ s) in
    let x = pc == c && diagonal in
    let here = cell-plain pc c diagonal up left h in
    let ih = row_rest-byte pc p s up x above (omega (arith, n)) h in
    let mine = ap (λ b. up && b) (sym (matches-led_by pc p s h)) in
    let r = reach_rest above (pc ∷ p) s in
    ap (λ y. l || reach (y ∷ row_rest pc s up above y) p s) here
    ∙ ap (λ b. l || b) ih
    ∙ regroup l diagonal (pc == c) (matches p s) (up && led_by pc (matches p) s) r
    ∙ ap (λ b. l || diagonal && (pc == c && matches p s) || (b || r)) mine
    ∙ ap (λ b. l || diagonal && (pc == c && matches p s) || b)
        (sym (reach-cons up above (pc ∷ p) s))
