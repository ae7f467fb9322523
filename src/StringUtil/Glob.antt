-- ===== src/StringUtil/Glob.antt =====
-- The matrix of `MatchWithWildcards` against the usual reading of a pattern.
use mathlib.Core.Path.{subst}
use go_inbucket.Base.{
  ℕ, inl, inr, Bool-cases, ==_iff, ◌≡◌, ◌≢◌, refl, sym, ◌∙◌, Bool, true, false, ◌&&◌, ◌||◌, List,
  [], ◌∷◌, arith, ◌==◌, if◌then◌else◌, All,
}
use go_inbucket.StringUtil.{first_row, cell, next_row, fill_rows, last_cell, match_with_wildcards}

-- `*` stands for any runes, `?` for any one rune, and each other rune for itself.
unfoldable pub glob : List ℕ → List ℕ → Bool
glob [] [] = true
glob [] (x ∷ s) = false
glob (c ∷ p) [] = c == b'*' && glob p []
glob (c ∷ p) (x ∷ s) =
    let any = glob p (x ∷ s) || glob (c ∷ p) s in
    let one = (c == b'?' || x == c) && glob p s in if c == b'*' then any else one

-- What a true cell behind the pattern rune `prev` promises: a star may still take runes.
abbrev residual : ℕ → List ℕ → List ℕ → Bool
residual prev p s = if prev == b'*' then glob (b'*' ∷ p) s else glob p s

abbrev reaches : ℕ → List Bool → List ℕ → List ℕ → Bool
reaches prev [] p s = false
reaches prev (b ∷ row) [] s = b && residual prev [] s
reaches prev (b ∷ row) (c ∷ p) s = (b && residual prev (c ∷ p) s) || reaches c row p s

-- A row fits the pattern, and a true cell before a star is followed by a true one.
abbrev IsClosed : List Bool → List ℕ → Type 0
IsClosed [] p = ⊥
IsClosed (b ∷ []) [] = Unit {0}
IsClosed (b ∷ d ∷ row) [] = ⊥
IsClosed (b ∷ []) (c ∷ p) = ⊥
IsClosed (b ∷ d ∷ row) (c ∷ p) = ((c == b'*') && b ≡ true → d ≡ true) × IsClosed (d ∷ row) p

first_row-IsClosed : (b : Bool) (p : List ℕ) → IsClosed (first_row b p) p
unfolding first_row
first_row-IsClosed b [] = tt
first_row-IsClosed b (c ∷ []) = (λ h. h, tt)
first_row-IsClosed b (c ∷ e ∷ p) = (λ h. h, first_row-IsClosed (c == b'*' && b) (e ∷ p))

first_row_head : (b : Bool) (p : List ℕ) → (r : List Bool) × (first_row b p ≡ b ∷ r)
unfolding first_row
first_row_head b [] = ([], refl)
first_row_head b (c ∷ p) = (first_row (c == b'*' && b) p, refl)

reaches_first :
    (prev : ℕ) (b : Bool) (p s : List ℕ)
    → reaches prev (first_row b p) p s ≡ (b && residual prev p s)
unfolding first_row glob
reaches_first prev b [] s = refl
reaches_first prev b (c ∷ p) [] = ground (arith, reaches_first c (c == b'*' && b) p [])
reaches_first prev b (c ∷ p) (x ∷ s) = ground (arith, reaches_first c (c == b'*' && b) p (x ∷ s))

-- What a row promises behind its first cell.
abbrev following : List Bool → List ℕ → List ℕ → Bool
following row [] s = false
following [] (c ∷ p) s = false
following (d ∷ row) (c ∷ p) s = reaches c row p s

reaches-cons :
    (prev : ℕ) (b : Bool) (row : List Bool) (p s : List ℕ)
    → reaches prev (b ∷ row) p s ≡ ((b && residual prev p s) || following (b ∷ row) p s)
reaches-cons prev b row [] s = ground arith
reaches-cons prev b row (c ∷ p) s = refl

last_cell-reaches :
    (prev : ℕ) (b : Bool) (row : List Bool) (p : List ℕ)
    → IsClosed (b ∷ row) p
    → reaches prev (b ∷ row) p [] ≡ last_cell (b ∷ row)
unfolding last_cell glob
last_cell-reaches prev b [] [] h = ground arith
last_cell-reaches prev b (d ∷ row) [] h = elim h [ ]
last_cell-reaches prev b [] (c ∷ p) h = elim h [ ]
last_cell-reaches prev b (d ∷ row) (c ∷ p) h =
    ground (arith, reaches-cons c d row p [], last_cell-reaches c d row p h.1)

-- The next row starts with `left`, and is closed if the row above is.
next_row_head :
    (x : ℕ) (p : List ℕ) (a : Bool) (above : List Bool) (left : Bool)
    → IsClosed (a ∷ above) p
    → (r : List Bool) × (next_row x p (a ∷ above) left ≡ left ∷ r)
unfolding next_row
next_row_head x [] a above left h = ([], refl)
next_row_head x (c ∷ p) a [] left h = elim h [ ]
next_row_head x (c ∷ p) a (e ∷ above) left h = (next_row x p (e ∷ above) (cell c x a e left), refl)

IsClosed-cons :
    (b d : Bool) (row : List Bool) (c : ℕ) (p : List ℕ)
    → ((c == b'*') && b ≡ true → d ≡ true)
    → (r : List Bool) × (row ≡ d ∷ r)
    → IsClosed row p
    → IsClosed (b ∷ row) (c ∷ p)
IsClosed-cons b d [] c p star (r, e) h = cc
IsClosed-cons b d (d' ∷ row) c p star (r, e) h = ((λ t. ground (arith, star t)), h)

next_row-IsClosed :
    (x : ℕ) (p : List ℕ) (d : Bool) (row : List Bool) (left : Bool)
    → x ≢ b'*'
    → IsClosed (d ∷ row) p
    → IsClosed (next_row x p (d ∷ row) left) p
unfolding next_row cell
next_row-IsClosed x [] d row left ne h = tt
next_row-IsClosed x (c ∷ p) d [] left ne h = elim h [ ]
next_row-IsClosed x (c ∷ p) d (a ∷ above) left ne h =
    IsClosed-cons left (cell c x d a left) _ c p (λ t. ground arith)
      (next_row_head x p a above (cell c x d a left) h.1)
      (next_row-IsClosed x p a above (cell c x d a left) ne h.1)

-- A star in front loses nothing.
glob_star : (q s : List ℕ) → glob q s ≡ true → glob (b'*' ∷ q) s ≡ true
unfolding glob
glob_star q [] h = ground arith
glob_star q (x ∷ s) h = ground arith

advance_star :
    (prev : ℕ) (p s : List ℕ) (d a left rest g : Bool)
    → (d ≡ true → a ≡ true)
    → ((left && residual prev (b'*' ∷ p) s)
        || (((a || left) && glob (b'*' ∷ p) s) || (a && g) || rest))
      ≡ ((left && residual prev (b'*' ∷ p) s)
          || (d && (g || glob (b'*' ∷ p) s))
          || ((a && (g || glob (b'*' ∷ p) s)) || rest))
advance_star prev p s d a left rest g h = ground (arith, glob_star (b'*' ∷ p) s)

advance_plain :
    (r d a rest g one next : Bool)
    → (r || (((if one then d else false) && g) || (a && next) || rest))
      ≡ (r || (d && (one && g)) || ((a && next) || rest))
advance_plain r d a rest g one next = ground arith

cell_star : (x : ℕ) (d a left : Bool) → x ≢ b'*' → cell b'*' x d a left ≡ (a || left)
unfolding cell
cell_star x d a left ne = ground arith

cell_plain :
    (c x : ℕ) (d a left : Bool)
    → (c == b'*') ≡ false
    → cell c x d a left ≡ (if c == b'?' || x == c then d else false)
unfolding cell
cell_plain c x d a left h = ground arith

-- What one cell promises, at a star and at any other rune.
abbrev Advances : ℕ → ℕ → List ℕ → List ℕ → Bool → Bool → Bool → Bool → ℕ → Type 0
Advances prev x p s d a left rest c =
    ((left && residual prev (c ∷ p) s)
      || ((cell c x d a left && residual c p s) || (a && glob p (x ∷ s)) || rest))
    ≡ ((left && residual prev (c ∷ p) s)
        || (d && glob (c ∷ p) (x ∷ s))
        || ((a && residual c p (x ∷ s)) || rest))

Advances-star :
    (prev x : ℕ) (p s : List ℕ) (d a left rest : Bool)
    → x ≢ b'*'
    → (d ≡ true → a ≡ true)
    → Advances prev x p s d a left rest b'*'
unfolding glob
Advances-star prev x p s d a left rest ne closed =
    rw (cell_star x d a left ne) (advance_star prev p s d a left rest (glob p (x ∷ s)) closed)

advance :
    (prev x c : ℕ) (p s : List ℕ) (d a left rest : Bool)
    → x ≢ b'*'
    → ((c == b'*') && d ≡ true → a ≡ true)
    → Advances prev x p s d a left rest c
unfolding glob
advance prev x c p s d a left rest ne star = elim (Bool-cases (c == b'*')) [
  | inl e ↦
      subst (Advances prev x p s d a left rest) (sym ((==_iff c b'*').0 e))
        (Advances-star prev x p s d a left rest ne (λ t. star (rw (e, t))))
  | inr e ↦
      rw (cell_plain c x d a left e, e)
        (advance_plain (left && residual prev (c ∷ p) s) d a rest (glob p s) (c == b'?' || x == c)
          (glob p (x ∷ s)))
]

reaches-next_row :
    (prev x : ℕ) (p s : List ℕ) (d : Bool) (row : List Bool) (left : Bool)
    → x ≢ b'*'
    → IsClosed (d ∷ row) p
    → reaches prev (next_row x p (d ∷ row) left) p s
      ≡ ((left && residual prev p s) || (d && glob p (x ∷ s)) || following (d ∷ row) p (x ∷ s))
unfolding next_row
reaches-next_row prev x [] s d row left ne h = unfold glob in ground arith
reaches-next_row prev x (c ∷ p) s d [] left ne h = elim h [ ]
reaches-next_row prev x (c ∷ p) s d (a ∷ above) left ne h =
    rw
      (
        reaches-next_row c x p s a above (cell c x d a left) ne h.1,
        reaches-cons c a above p (x ∷ s),
      )
      (advance prev x c p s d a left (following (a ∷ above) p (x ∷ s)) ne h.0)

reaches-fill_rows :
    (p s : List ℕ) (d : Bool) (row : List Bool)
    → All (λ x. x ≢ b'*') s
    → IsClosed (d ∷ row) p
    → last_cell (fill_rows p (d ∷ row) s) ≡ reaches 0 (d ∷ row) p s
unfolding fill_rows
reaches-fill_rows p [] d row plain h = sym (last_cell-reaches 0 d row p h)
reaches-fill_rows p (x ∷ s) d row plain h =
    let (r, e) = next_row_head x p d row false h in
    let closed : IsClosed (false ∷ r) p = rw e at (next_row-IsClosed x p d row false plain.0 h) in
    let filled : last_cell (fill_rows p (next_row x p (d ∷ row) false) s)
        ≡ reaches 0 (false ∷ r) p s =
      rw e (reaches-fill_rows p s false r plain.1 closed) in
    let stepped = rw e at (reaches-next_row 0 x p s d row false plain.0 h) in
    ground (arith, filled, stepped, reaches-cons 0 d row p (x ∷ s))

-- On an input that holds no `*` itself, `MatchWithWildcards` decides exactly the usual reading of the
-- pattern: `*` for any runes, `?` for any one rune, each other rune for itself.
pub match_with_wildcards-glob :
    (p s : List ℕ) → All (λ x. x ≢ b'*') s → match_with_wildcards p s ≡ glob p s
unfolding match_with_wildcards
match_with_wildcards-glob p s plain =
    let (r, e) = first_row_head true p in
    let filled = reaches-fill_rows p s true r plain (rw e at (first_row-IsClosed true p)) in
    let start = rw e at (reaches_first 0 true p s) in rw e (filled ∙ start)
