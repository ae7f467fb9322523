-- ===== src/Pop3/Lines.antt =====
-- The lines of a message, as pkg/server/pop3/handler.go reads and sends them.
use go_inbucket.Base.{
  ℕ, zero, suc, ◌≡◌, refl, Bool, true, false, List, [], ◌∷◌, leb, ◌==◌, if◌then◌else◌, Bytes,
  bytes_eq, length, txt,
}
use go_inbucket.GoText.{split_parts}

-- `bufio.MaxScanTokenSize`.
abbrev pub max_token : ℕ
max_token = 65536

unfoldable pub drop_cr : Bytes → Bytes
drop_cr [] = []
drop_cr (c ∷ []) = if c == b'\r' then [] else c ∷ []
drop_cr (c ∷ d ∷ s) = c ∷ drop_cr (d ∷ s)

-- The lines between line feeds, up to one that is too long, and whether there was none such. Behind
-- the last line feed there is a line only if there is text.
unfoldable pub take_lines : ℕ → Bytes → List Bytes → List Bytes × Bool
unfolding drop_cr
take_lines max l [] =
    if leb max (length l)
    then ([], false)
    else if bytes_eq l []
    then ([], true)
    else (drop_cr l ∷ [], true)
take_lines max l (k ∷ ls) =
    let (lines, ended) = take_lines max k ls in
    if leb max (length l) then ([], false) else (drop_cr l ∷ lines, ended)

-- `bufio.Scanner` over a source: what `Scan` yields, and whether `Err` is nil.
unfoldable pub scan_lines : ℕ → Bytes → List Bytes × Bool
unfolding take_lines split_parts
scan_lines max source = take_lines max (split_parts b'\n' source).0 (split_parts b'\n' source).1

-- A line that begins with a dot gets another.
unfoldable pub stuff : Bytes → Bytes
stuff [] = []
stuff (c ∷ l) = if c == b'.' then b'.' ∷ c ∷ l else c ∷ l

-- The loop of `sendMessageTop`: the lines that it sends, and whether it came to the end.
unfoldable pub top_lines : ℕ → Bool → List Bytes → List Bytes × Bool
unfolding bytes_eq
top_lines count in_body [] = ([], true)
top_lines zero true (l ∷ ls) = ([], false)
top_lines (suc count) true (l ∷ ls) =
    let (sent, ended) = top_lines count true ls in (l ∷ sent, ended)
top_lines count false (l ∷ ls) =
    let (sent, ended) = top_lines count (bytes_eq l []) ls in (l ∷ sent, ended)

scan_lines_runs :
    (scan_lines 4 (txt "a\r\n.b\n\nc") ≡ (txt "a" ∷ txt ".b" ∷ [] ∷ txt "c" ∷ [], true))
    × (scan_lines 4 (txt "a\nbcde\nf\n") ≡ (txt "a" ∷ [], false))
unfolding scan_lines txt bytes_eq
scan_lines_runs = (refl, refl)
