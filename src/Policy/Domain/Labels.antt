-- ===== src/Policy/Domain/Labels.antt =====
-- `ValidateDomainPart` against the labels of the domain.
use go_inbucket.Base.{
  ℕ, suc, ◌+◌, ◌≡◌, refl, ap, ◌∙◌, Bool, true, false, not, ◌&&◌, ◌||◌, inl, inr, Bool-cases, List,
  [], ◌∷◌, ◌++◌, arith, ltb, leb, ◌==◌, ==_iff, if◌then◌else◌, Bytes, length, take, Option, none,
  some, txt,
}
use go_inbucket.GoText.{last_or, split_parts, split}
use go_inbucket.Policy.Domain.{
  has_prefix, is_alnum, scan_labels, is_bracketed, bracket_text, validate_domain_part,
}

-- The letters, digits and underscores of a label.
unfoldable pub alnums : Bytes → ℕ
unfolding is_alnum
alnums [] = 0
alnums (c ∷ l) = (if is_alnum c then 1 else 0) + alnums l

-- Only letters, digits, underscores and hyphens; no hyphen first, last, or behind another.
unfoldable pub is_clean : ℕ → Bytes → Bool
unfolding is_alnum
is_clean prev [] = not (prev == b'.' || prev == b'-')
is_clean prev (c ∷ l) =
    if is_alnum c
    then is_clean c l
    else (c == b'-' && not (prev == b'.' || prev == b'-')) && is_clean c l

-- The rest of a label, behind `n` letters and digits.
abbrev good_rest : ℕ → ℕ → Bool → Bytes → Bool
good_rest prev n has l = is_clean prev l && (leb (n + alnums l) 63 && (has || ltb 0 (alnums l)))

-- A good label is clean, and has between 1 and 63 letters and digits.
unfoldable pub is_label : Bytes → Bool
unfolding is_clean alnums
is_label l = is_clean b'.' l && (leb (alnums l) 63 && ltb 0 (alnums l))

unfoldable pub all_labels : List Bytes → Bool
unfolding is_label
all_labels [] = true
all_labels (l ∷ ls) = is_label l && all_labels ls

-- The domain without a dot at its end.
unfoldable pub strip_dot : Bytes → Bytes
strip_dot [] = []
strip_dot (c ∷ []) = if c == b'.' then [] else c ∷ []
strip_dot (c ∷ d ∷ s) = c ∷ strip_dot (d ∷ s)

not_dot : (c : ℕ) → is_alnum c ≡ true → (c == b'.') ≡ false
unfolding is_alnum
not_dot c h = ground arith

scan_labels-good :
    (prev n : ℕ) (has : Bool) (s : Bytes)
    → scan_labels prev n has (s ++ b'.' ∷ [])
      ≡ (good_rest prev n has (split_parts b'.' s).0 && all_labels (split_parts b'.' s).1)
unfolding scan_labels split_parts is_clean alnums all_labels is_label
scan_labels-good prev n has [] = ground arith
scan_labels-good prev n has (c ∷ s) = elim (Bool-cases (is_alnum c)) [
  | inl alnum ↦ rw (alnum, not_dot c alnum, scan_labels-good c (n + 1) true s) (ground arith)
  | inr other ↦ elim (Bool-cases (c == b'.')) [
    | inl dot ↦
        rw (other, dot) (ground (arith, scan_labels-good c 0 false s, (==_iff c b'.').0 dot))
    | inr apart ↦ rw (other, apart) (ground (arith, scan_labels-good c n has s))
  ]
]

dotted :
    (c : ℕ) (s : Bytes)
    → (if last_or c s == b'.' then c ∷ s else (c ∷ s) ++ b'.' ∷ []) ≡ strip_dot (c ∷ s) ++ b'.' ∷ []
unfolding last_or strip_dot
dotted c [] = ground arith
dotted c (d ∷ s) = elim (Bool-cases (last_or d s == b'.')) [
  | inl dot ↦ rw dot (ap (◌∷◌ c) (rw dot at (dotted d s)))
  | inr apart ↦ rw apart (ap (◌∷◌ c) (rw apart at (dotted d s)))
]

-- What stands before a closing bracket at the end.
abbrev pub closed_by : Bytes → Option Bytes
closed_by [] = none
closed_by (c ∷ []) = if c == b']' then some [] else none
closed_by (c ∷ d ∷ s) = elim (closed_by (d ∷ s)) [ none ↦ none | some t ↦ some (c ∷ t) ]

abbrev at_least_two : Bytes → Option Bytes
at_least_two t = if leb 2 (length t) then some t else none

-- The two bytes or more between the brackets of a domain in brackets.
abbrev pub in_brackets : Bytes → Option Bytes
in_brackets [] = none
in_brackets (c ∷ s) =
    if c == b'[' then elim (closed_by s) [ none ↦ none | some t ↦ at_least_two t ] else none

-- An IPv6 address has a mark before it.
abbrev pub unmarked : Bytes → Bytes
unmarked (a ∷ b ∷ c ∷ d ∷ e ∷ s) =
    if a == b'I' && b == b'P' && c == b'v' && d == b'6' && e == b':'
    then s
    else a ∷ b ∷ c ∷ d ∷ e ∷ s
unmarked s = s

abbrev longer : ℕ → Option Bytes → Option Bytes
longer c none = none
longer c (some t) = some (c ∷ t)

closed_by-last :
    (c : ℕ) (s : Bytes)
    → closed_by (c ∷ s) ≡ (if last_or c s == b']' then some (take (length s) (c ∷ s)) else none)
unfolding last_or
closed_by-last c [] = ground arith
closed_by-last c (d ∷ s) = elim (Bool-cases (last_or d s == b']')) [
  | inl closed ↦ rw closed (ap (longer c) (rw closed at (closed_by-last d s)))
  | inr open' ↦ rw open' (ap (longer c) (rw open' at (closed_by-last d s)))
]

has_prefix-mark :
    (d e f g k : ℕ) (s : Bytes)
    → has_prefix (txt "IPv6:") (d ∷ e ∷ f ∷ g ∷ k ∷ s)
      ≡ (d == b'I' && e == b'P' && f == b'v' && g == b'6' && k == b':')
unfolding has_prefix txt
has_prefix-mark d e f g k s = ground arith

bracket_text-unmarked :
    (c d : ℕ) (s : Bytes)
    → (last_or d s == b']') ≡ true
    → bracket_text (c ∷ d ∷ s) ≡ unmarked (take (length s) (d ∷ s))
unfolding bracket_text last_or has_prefix txt
bracket_text-unmarked c d [] h = ground (arith, h)
bracket_text-unmarked c d (e ∷ []) h = ground (arith, h)
bracket_text-unmarked c d (e ∷ f ∷ []) h = ground (arith, h)
bracket_text-unmarked c d (e ∷ f ∷ g ∷ []) h = ground (arith, h)
bracket_text-unmarked c d (e ∷ f ∷ g ∷ k ∷ []) h = ground (arith, h)
bracket_text-unmarked c d (e ∷ f ∷ g ∷ k ∷ l ∷ s) h =
    let mark = has_prefix-mark d e f g k (l ∷ s) in
    elim (Bool-cases (d == b'I' && e == b'P' && f == b'v' && g == b'6' && k == b':')) [
      | inl marked ↦
          let six = mark ∙ marked in
          rw (six, marked, bracket_text) (ap (λ n. take n (l ∷ s)) (omega arith))
      | inr plain ↦
          let one = mark ∙ plain in
          rw (one, plain, bracket_text)
            (ap (λ n. take n (d ∷ e ∷ f ∷ g ∷ k ∷ l ∷ s))
              {y = suc (suc (suc (suc (suc (length s)))))} (omega arith))
    ]

length-take : (d : ℕ) (s : Bytes) → length (take (length s) (d ∷ s)) ≡ length s
length-take d [] = refl
length-take d (e ∷ s) = ap (λ n. suc n) (length-take e s)

-- What the text in brackets, if there is one, decides.
abbrev pub decided : (Bytes → Bool) → Bool → Option Bytes → Bool
decided parse_ip labels none = labels
decided parse_ip labels (some t) = parse_ip (unmarked t)

decided-in_brackets :
    (parse_ip : Bytes → Bool) (labels : Bool) (d : Bytes)
    → decided parse_ip labels (in_brackets d)
      ≡ (if is_bracketed d then parse_ip (bracket_text d) else labels)
unfolding is_bracketed last_or
decided-in_brackets parse_ip labels [] = refl
decided-in_brackets parse_ip labels (c ∷ []) = ground arith
decided-in_brackets parse_ip labels (c ∷ d ∷ s) = elim (Bool-cases (last_or d s == b']')) [
  | inr open' ↦
      let shut : closed_by (d ∷ s) ≡ none = rw open' at (closed_by-last d s) in
      ground (arith, shut, open')
  | inl closed ↦
      let shut : closed_by (d ∷ s) ≡ some (take (length s) (d ∷ s)) =
        rw closed at (closed_by-last d s) in
      rw (shut, closed, bracket_text-unmarked c d s closed, length-take d s) (ground arith)
]

-- `ValidateDomainPart` accepts exactly the domains of 1 to 255 bytes that are an IP address in
-- brackets, of two bytes or more, with the mark `IPv6:` or without, by the test of the library, or,
-- with one dot at the end passed over, labels between dots, each of 1 to 63 letters, digits and
-- underscores, with hyphens that stand neither first nor last nor behind one another.
pub validate_domain_part-labels :
    (parse_ip : Bytes → Bool) (domain : Bytes)
    → validate_domain_part parse_ip domain ≡ (
        ltb 0 (length domain)
        && (leb (length domain) 255
            && decided parse_ip (all_labels (split b'.' (strip_dot domain))) (in_brackets domain)))
unfolding validate_domain_part last_or split all_labels
validate_domain_part-labels parse_ip [] = refl
validate_domain_part-labels parse_ip (c ∷ s) =
    rw
      (
        decided-in_brackets parse_ip (all_labels (split b'.' (strip_dot (c ∷ s)))) (c ∷ s),
        dotted c s,
        scan_labels-good b'.' 0 false (strip_dot (c ∷ s)),
      )
      (ground arith)
