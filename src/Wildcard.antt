-- ===== src/Wildcard.antt =====
-- internal/wildcard/wildcard.go, over the bytes of the pattern and of the text
pub mod Matches
pub mod Rows
pub mod Table
use tork.Prelude.{ℕ, Bool, true, false, not, ◌&&◌, ◌||◌, List, [], ◌∷◌, ◌==◌, if◌then◌else◌}

abbrev pub Bytes : Type 0
Bytes = List ℕ

-- `const C = '*'`
abbrev pub star : ℕ
star = b'*'

-- `==` on strings
abbrev pub bytes_eq : Bytes → Bytes → Bool
bytes_eq [] [] = true
bytes_eq [] (d ∷ t) = false
bytes_eq (c ∷ s) [] = false
bytes_eq (c ∷ s) (d ∷ t) = c == d && bytes_eq s t

unfoldable pub is_wild_pattern : Bytes → Bool
is_wild_pattern [] = false
is_wild_pattern (c ∷ p) = c == star || is_wild_pattern p

-- `dp[i+1][j+1]` from `dp[i][j]`, `dp[i][j+1]` and `dp[i+1][j]`
unfoldable pub cell : ℕ → ℕ → Bool → Bool → Bool → Bool
cell pc sc diagonal above left =
    if pc == star then diagonal || above || left else if pc == sc then diagonal else false

-- The cells of a row right of its first one, from the row above.
unfoldable pub row_rest : ℕ → Bytes → Bool → List Bool → Bool → List Bool
row_rest pc [] diagonal above left = []
row_rest pc (sc ∷ s) diagonal [] left = []
row_rest pc (sc ∷ s) diagonal (up ∷ above) left =
    let here = cell pc sc diagonal up left in here ∷ row_rest pc s up above here

-- Row `i+1` from row `i`.
unfoldable pub next_row : ℕ → Bytes → List Bool → List Bool
unfolding row_rest
next_row pc s [] = []
next_row pc s (d ∷ above) =
    let first = if pc == star then d else false in first ∷ row_rest pc s d above first

-- Row 0: only the empty text matches the empty pattern.
unfoldable pub falses : Bytes → List Bool
falses [] = []
falses (c ∷ s) = false ∷ falses s

unfoldable pub last_row : Bytes → Bytes → List Bool → List Bool
unfolding next_row
last_row [] s row = row
last_row (pc ∷ p) s row = last_row p s (next_row pc s row)

unfoldable pub last_cell : List Bool → Bool
last_cell [] = false
last_cell (b ∷ []) = b
last_cell (b ∷ c ∷ row) = last_cell (c ∷ row)

-- `Match`
unfoldable pub match : Bytes → Bytes → Bool
unfolding is_wild_pattern last_row falses last_cell
match pattern s =
    if bytes_eq pattern (star ∷ [])
    then true
    else if bytes_eq pattern []
    then bytes_eq s []
    else if not (is_wild_pattern pattern)
    then bytes_eq pattern s
    else last_cell (last_row pattern s (true ∷ falses s))
