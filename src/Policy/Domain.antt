-- ===== src/Policy/Domain.antt =====
-- `ValidateDomainPart` of pkg/policy/address.go. A byte above 127 and the rune that it belongs to both
-- fall to the default case, so the loop is over bytes.
pub mod Labels
use go_inbucket.Base.{
  ℕ, suc, ◌+◌, Bool, true, false, not, ◌&&◌, ◌||◌, [], ◌∷◌, ◌++◌, ltb, leb, ◌==◌, if◌then◌else◌,
  Bytes, bytes_eq, length, drop, take, ◌-◌, txt,
}
use go_inbucket.GoText.{last_or}

abbrev within : ℕ → ℕ → ℕ → Bool
within lo hi c = leb lo c && leb c hi

unfoldable pub is_alnum : ℕ → Bool
is_alnum c = within b'a' b'z' c || within b'A' b'Z' c || within b'0' b'9' c || c == b'_'

-- The loop over the domain.
unfoldable pub scan_labels : ℕ → ℕ → Bool → Bytes → Bool
unfolding is_alnum
scan_labels prev label_len has_alnum [] = true
scan_labels prev label_len has_alnum (c ∷ s) =
    let inside = scan_labels c (label_len + 1) true s in
    let hyphen = scan_labels c label_len has_alnum s in
    let next = scan_labels c 0 false s in
    if is_alnum c
    then inside
    else if c == b'-'
    then (if prev == b'.' || prev == b'-' then false else hyphen)
    else if c == b'.'
    then (if prev == b'.' || prev == b'-'
        then false
        else if ltb 63 label_len
        then false
        else if not has_alnum
        then false
        else next)
    else false

unfoldable pub has_prefix : Bytes → Bytes → Bool
has_prefix [] s = true
has_prefix (c ∷ p) [] = false
has_prefix (c ∷ p) (x ∷ s) = c == x && has_prefix p s

unfoldable pub is_bracketed : Bytes → Bool
unfolding last_or
is_bracketed [] = false
is_bracketed (c ∷ s) = leb 4 (length (c ∷ s)) && c == b'[' && last_or c s == b']'

-- The text between the brackets, without the mark of an IPv6 address.
unfoldable pub bracket_text : Bytes → Bytes
unfolding has_prefix txt
bracket_text d =
    let s = if has_prefix (txt "IPv6:") (drop 1 d) then 6 else 1 in
    take (length d - 1 - s) (drop s d)

unfoldable pub validate_domain_part : (Bytes → Bool) → Bytes → Bool
unfolding is_bracketed bracket_text scan_labels last_or
validate_domain_part parse_ip domain =
    if length domain == 0
    then false
    else if ltb 255 (length domain)
    then false
    else if is_bracketed domain
    then parse_ip (bracket_text domain)
    else scan_labels b'.' 0 false (if last_or 0 domain == b'.' then domain else domain ++ b'.' ∷ [])
