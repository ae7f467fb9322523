-- ===== src/Web/Text.antt =====
-- pkg/server/web/helpers.go: a plain text as HTML. html.EscapeString is a parameter, and so is the
-- pattern of a URL, as the pieces of a text with whether each is a URL.
use go_inbucket.Base.{
  ℕ, zero, suc, ◌-◌, Bool, true, false, ◌&&◌, List, [], ◌∷◌, ◌++◌, ◌==◌, ◌≡◌, refl, if◌then◌else◌,
  Bytes, txt, length,
}

abbrev pub starts_with : Bytes → Bytes → Bool
starts_with [] s = true
starts_with (p ∷ ps) [] = false
starts_with (p ∷ ps) (c ∷ s) = p == c && starts_with ps s

-- `strings.ReplaceAll` for a text that is not empty; `skip` bytes of a match are still to be left out.
unfoldable pub replace_all : Bytes → Bytes → ℕ → Bytes → Bytes
replace_all old new skip [] = []
replace_all old new (suc skip) (c ∷ s) = replace_all old new skip s
replace_all old new zero (c ∷ s) =
    let hit = starts_with old (c ∷ s) in
    let rest = replace_all old new (if hit then length old - 1 else 0) s in
    if hit then new ++ rest else c ∷ rest

-- `WrapURL`.
unfoldable pub wrap_url : Bytes → Bytes
unfolding replace_all txt
wrap_url url =
    txt "<a href=\""
    ++ (replace_all (txt "&amp;") (txt "&") 0 url
        ++ (txt "\" target=\"_blank\">" ++ (url ++ txt "</a>")))

unfoldable pub wrap_urls : List (Bytes × Bool) → Bytes
unfolding wrap_url
wrap_urls [] = []
wrap_urls ((piece, is_url) ∷ pieces) =
    (if is_url then wrap_url piece else piece) ++ wrap_urls pieces

-- The replacer of line ends.
unfoldable pub break_lines : Bool → Bytes → Bytes
unfolding txt
break_lines skip [] = []
break_lines true (c ∷ s) = break_lines false s
break_lines false (c ∷ s) =
    let pair = starts_with (b'\r' ∷ b'\n' ∷ []) (c ∷ s) in
    let rest = break_lines pair s in
    if pair
    then txt "<br/>\n" ++ rest
    else if c == b'\r'
    then txt "<br/>\n" ++ rest
    else if c == b'\n'
    then txt "<br/>\n" ++ rest
    else c ∷ rest

-- `TextToHTML`.
unfoldable pub text_to_html : (Bytes → Bytes) → (Bytes → List (Bytes × Bool)) → Bytes → Bytes
unfolding wrap_urls break_lines
text_to_html escape find_urls text = break_lines false (wrap_urls (find_urls (escape text)))

runs :
    (break_lines false (txt "a\r\nb\rc\n") ≡ txt "a<br/>\nb<br/>\nc<br/>\n")
    × (wrap_url (txt "x?a&amp;b") ≡ txt "<a href=\"x?a&b\" target=\"_blank\">x?a&amp;b</a>")
unfolding break_lines wrap_url txt
runs = (refl, refl)
