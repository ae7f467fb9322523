-- ===== src/StringUtil.antt =====
-- pkg/stringutil/utils.go.
pub mod Glob
use go_inbucket.Base.{
  ℕ, ◌+◌, ◌/◌, ◌%◌, ltb, Bool, true, false, ◌&&◌, ◌||◌, List, [], ◌∷◌, ◌++◌, map, ◌==◌,
  if◌then◌else◌, Bytes, bytes_eq, Option, none, some, txt, ◌≡◌, refl,
}
use go_inbucket.GoText.{Unicode, to_lower, trim}

-- `hex.EncodeToString`.
abbrev hex_digit : ℕ → ℕ
hex_digit n = if ltb n 10 then 48 + n else 87 + n

unfoldable hex_encode : Bytes → Bytes
hex_encode [] = []
hex_encode (c ∷ s) = hex_digit (c / 16) ∷ hex_digit (c % 16) ∷ hex_encode s

-- `HashMailboxName`, over SHA-1.
unfoldable hash_mailbox_name : (Bytes → Bytes) → Bytes → Bytes
unfolding hex_encode
hash_mailbox_name sha1 mailbox = hex_encode (sha1 mailbox)

hash_mailbox_name_runs : hash_mailbox_name (λ name. 7 ∷ 171 ∷ name) (txt "a") ≡ txt "07ab61"
unfolding hash_mailbox_name txt
hash_mailbox_name_runs = refl

unfoldable pub slice_contains : List Bytes → Bytes → Bool
slice_contains [] s = false
slice_contains (v ∷ slice) s =
    let later = slice_contains slice s in if bytes_eq s v then true else later

unfoldable pub slice_to_lower : Unicode → List Bytes → List Bytes
slice_to_lower u slice = map (to_lower u) slice

-- `mail.Address`.
pub record Address : Type 0 where
  pub name : Bytes
  pub address : Bytes

-- An address to print; `none` is a nil pointer.
unfoldable pub string_address : Option Address → Bytes
string_address none = []
string_address (some a) =
    (if bytes_eq a.name [] then [] else a.name ++ b' ' ∷ [])
    ++ (if bytes_eq a.address [] then [] else b'<' ∷ a.address ++ b'>' ∷ [])

unfoldable pub string_address_list : List (Option Address) → List Bytes
unfolding string_address
string_address_list addrs = map string_address addrs

-- The function that `MakePathPrefixer(prefix)` returns.
unfoldable pub make_path_prefixer : Bytes → Bytes → Bytes
make_path_prefixer prefix path =
    let prefix' = trim (b'/' ∷ []) prefix in
    (if bytes_eq prefix' [] then [] else b'/' ∷ prefix') ++ path

-- The first row of the matrix: the patterns of stars alone match the empty input.
unfoldable pub first_row : Bool → List ℕ → List Bool
first_row b [] = b ∷ []
first_row b (c ∷ p) = b ∷ first_row (c == b'*' && b) p

-- One cell, from the cells at its upper left, above it and at its left. The second test of the
-- loop comes last, and overwrites what the test for a star has written.
unfoldable pub cell : ℕ → ℕ → Bool → Bool → Bool → Bool
cell c x diagonal above left =
    if c == b'?' || x == c then diagonal else if c == b'*' then above || left else false

-- The row for the input rune `x`, from the row above; `left` is the cell just written.
unfoldable pub next_row : ℕ → List ℕ → List Bool → Bool → List Bool
unfolding cell
next_row x (c ∷ p) (d ∷ a ∷ above) left = left ∷ next_row x p (a ∷ above) (cell c x d a left)
next_row x _ _ left = left ∷ []

unfoldable pub fill_rows : List ℕ → List Bool → List ℕ → List Bool
unfolding next_row
fill_rows p row [] = row
fill_rows p row (x ∷ s) = fill_rows p (next_row x p row false) s

-- The last cell of a row.
unfoldable pub last_cell : List Bool → Bool
last_cell [] = false
last_cell (b ∷ []) = b
last_cell (b ∷ c ∷ row) = last_cell (c ∷ row)

-- `MatchWithWildcards`, on runes.
unfoldable pub match_with_wildcards : List ℕ → List ℕ → Bool
unfolding first_row fill_rows last_cell
match_with_wildcards p s = last_cell (fill_rows p (first_row true p) s)
