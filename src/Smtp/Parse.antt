-- ===== src/Smtp/Parse.antt =====
-- The parsing of commands in pkg/server/smtp/handler.go.
pub mod Fuel
use go_inbucket.Base.{
  ℕ, zero, suc, Bool, not, ◌≡◌, refl, ◌&&◌, ◌||◌, Option, none, some, List, [], ◌∷◌, ltb, leb, ◌==◌,
  if◌then◌else◌, Bytes, bytes_eq, length, txt,
}
use go_inbucket.GoText.{Unicode, to_upper, trim, trim_right, cut_at}
use go_inbucket.Storage.Dict.{Dict, lookup, insert}

pub data Command : Type 0 where
  helo ehlo mail_from rcpt data_block rset send_mail soml saml vrfy expn help noop quit_session
        turn :
      Command
  starttls auth : Command

-- The table `commands`.
unfoldable pub commands : Dict Command
unfolding txt
commands =
    (txt "HELO", helo)
    ∷ (txt "EHLO", ehlo)
    ∷ (txt "MAIL", mail_from)
    ∷ (txt "RCPT", rcpt)
    ∷ (txt "DATA", data_block)
    ∷ (txt "RSET", rset)
    ∷ (txt "SEND", send_mail)
    ∷ (txt "SOML", soml)
    ∷ (txt "SAML", saml)
    ∷ (txt "VRFY", vrfy)
    ∷ (txt "EXPN", expn)
    ∷ (txt "HELP", help)
    ∷ (txt "NOOP", noop)
    ∷ (txt "QUIT", quit_session)
    ∷ (txt "TURN", turn)
    ∷ (txt "STARTTLS", starttls)
    ∷ (txt "AUTH", auth)
    ∷ []

-- `parseCmd`: the command and its argument; `none` if it is garbled.
unfoldable pub parse_cmd : Unicode → Bytes → Option (Bytes × Bytes)
unfolding trim_right cut_at to_upper trim
parse_cmd u raw =
    let line = trim_right (b'\r' ∷ b'\n' ∷ []) raw in
    elim (cut_at b' ' line) [
      | none ↦
          if length line == 0
          then some ([], [])
          else if ltb (length line) 4
          then none
          else some (to_upper u line, [])
      | some (cmd, arg) ↦
          if length cmd == 0
          then some ([], [])
          else if ltb (length cmd) 4
          then none
          else some (to_upper u cmd, trim (b' ' ∷ []) arg)
    ]

-- `parseHelloArgument`; `none` is its error.
unfoldable pub parse_hello_argument : Bytes → Option Bytes
unfolding cut_at bytes_eq
parse_hello_argument arg =
    let domain : Bytes = elim (cut_at b' ' arg) [ none ↦ arg | some (a, _) ↦ a ] in
    if bytes_eq domain [] then none else some domain

-- `\w`.
abbrev is_word : ℕ → Bool
is_word c =
    (leb b'a' c && leb c b'z')
    || (leb b'A' c && leb c b'Z')
    || (leb b'0' c && leb c b'9')
    || c == b'_'

-- The longest run of `\w`, and what follows it.
unfoldable pub span_word : Bytes → Bytes × Bytes
span_word [] = ([], [])
span_word (c ∷ s) =
    let (word, rest) = span_word s in if is_word c then (c ∷ word, rest) else ([], c ∷ s)

-- `(\w+|<>)` at the start of a text: the match, and what follows it.
unfoldable value_at : Bytes → Option (Bytes × Bytes)
unfolding span_word
value_at [] = none
value_at (c ∷ []) = if is_word c then some (c ∷ [], []) else none
value_at (c ∷ d ∷ s) =
    if is_word c
    then some (span_word (c ∷ d ∷ s))
    else if c == b'<' && d == b'>'
    then some (c ∷ d ∷ [], s)
    else none

-- `=(\w+|<>)` behind a key.
unfoldable value_of : Bytes → Bytes → Option ((Bytes × Bytes) × Bytes)
unfolding value_at
value_of key [] = none
value_of key (c ∷ s) =
    if c == b'='
    then elim (value_at s) [ none ↦ none | some (v, rest) ↦ some ((key, v), rest) ]
    else none

-- The pattern ` (\w+)=(\w+|<>)` at the start of a text.
unfoldable match_at : Bytes → Option ((Bytes × Bytes) × Bytes)
unfolding span_word value_of
match_at [] = none
match_at (c ∷ s) =
    let (key, rest) = span_word s in
    if c == b' ' && not (bytes_eq key []) then value_of key rest else none

-- All matches, from left to right. Each round reads at least a byte.
unfoldable pub find_all : ℕ → Bytes → List (Bytes × Bytes)
unfolding match_at
find_all zero s = []
find_all (suc fuel) [] = []
find_all (suc fuel) (c ∷ s) = elim (match_at (c ∷ s)) [
  | none ↦ find_all fuel s
  | some (kv, rest) ↦ kv ∷ find_all fuel rest
]

file_args : Unicode → List (Bytes × Bytes) → Dict Bytes → Dict Bytes
unfolding to_upper
file_args u [] args = args
file_args u ((k, v) ∷ pm) args = file_args u pm (insert (to_upper u k) v args)

-- `parseArgs`; `none` if nothing matches.
unfoldable pub parse_args : Unicode → Bytes → Option (Dict Bytes)
unfolding find_all file_args
parse_args u arg = elim (find_all (length arg) arg) [
  | [] ↦ none
  | kv ∷ pm ↦ some (file_args u (kv ∷ pm) [])
]

-- `args[key]`, empty if the key is missing.
unfoldable pub arg_or_empty : Bytes → Dict Bytes → Bytes
arg_or_empty key args = elim (lookup key args) [ none ↦ [] | some v ↦ v ]

-- `strings.SplitN(s, " ", n)`.
unfoldable pub split_n : ℕ → Bytes → List Bytes
unfolding cut_at
split_n zero s = []
split_n (suc zero) s = s ∷ []
split_n (suc (suc n)) s = elim (cut_at b' ' s) [
  | none ↦ s ∷ []
  | some (a, b) ↦ a ∷ split_n (suc n) b
]

parse_args_runs :
    parse_args
      (record { lower = λ s. s; upper = λ s. s; runes = λ s. s })
      (txt " body=8BITMIME x SIZE=12 size=<>")
    ≡ some ((txt "BODY", txt "8BITMIME") ∷ (txt "SIZE", txt "<>") ∷ [])
unfolding parse_args txt bytes_eq
parse_args_runs = refl
