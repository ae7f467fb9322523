-- ===== src/Tests/SanitizeRuns.antt =====
-- The sanitizer on concrete styles and tags: pkg/webui/sanitize.
use go_inbucket.Base.{◌≡◌, refl, false, List, [], ◌∷◌, ◌++◌, Bytes, txt, All}
use go_inbucket.GoText.{Unicode, to_lower}
use go_inbucket.Sanitize.Css.{
  TokenType, token_ident, token_s, token_char, Token, Scanner, sanitize_style, is_allowed,
  is_semicolon, comment,
}
use go_inbucket.Sanitize.Css.Declarations.{
  Declaration, semicolon, tokens, all_tokens, IsDeclaration, sanitize_style-keep,
  sanitize_style-empty,
}
use go_inbucket.Sanitize.Css.Segments.{shown_all, segments, sanitize_style-segments}
use go_inbucket.Sanitize.Tags.{
  Tokenizer, write_tag, clean, is_style, IsSafe, write_tag-clean, start_tag, other_token,
}

abbrev ascii_only : Unicode
ascii_only = record { lower = λ s. s; upper = λ s. s; runes = λ s. s }

abbrev type_name : TokenType → Bytes
type_name token_char = txt "CHAR"
type_name _ = txt "OTHER"

abbrev char : Bytes → Token
char v = record { type = token_char; value = v }

abbrev ident : Bytes → Token
ident v = record { type = token_ident; value = v }

abbrev space : Token
space = record { type = token_s; value = txt " " }

abbrev color : Declaration
color = record { name = txt "color"; body = char (txt ":") ∷ ident (txt "red") ∷ [] }

abbrev width : Declaration
width = record { name = txt "Width"; body = char (txt ":") ∷ ident (txt "auto") ∷ [] }

abbrev position : Declaration
position = record { name = txt "position"; body = char (txt ":") ∷ ident (txt "fixed") ∷ [] }

-- A scanner that finds the same tokens in every text.
abbrev scanner : List Token → Scanner
scanner ts = record { unicode = ascii_only; scan = λ s. ts; type_name = type_name }

abbrev mixed : List Declaration
mixed = position ∷ color ∷ width ∷ []

kept_of_mixed : sanitize_style (scanner (all_tokens mixed)) [] ≡ txt "color:red;Width:auto;"
unfolding sanitize_style is_allowed is_semicolon txt to_lower
kept_of_mixed = refl

color-IsDeclaration : (ts : List Token) → IsDeclaration (scanner ts) color
unfolding is_semicolon txt
color-IsDeclaration ts = ((refl, refl), ((refl, refl), tt))

width-IsDeclaration : (ts : List Token) → IsDeclaration (scanner ts) width
unfolding is_semicolon txt
width-IsDeclaration ts = ((refl, refl), ((refl, refl), tt))

position-IsDeclaration : (ts : List Token) → IsDeclaration (scanner ts) position
unfolding is_semicolon txt
position-IsDeclaration ts = ((refl, refl), ((refl, refl), tt))

sanitize_style-keep_example :
    sanitize_style (scanner (all_tokens mixed)) [] ≡ txt "color:red;Width:auto;"
unfolding is_allowed txt to_lower
sanitize_style-keep_example =
    sanitize_style-keep (scanner (all_tokens mixed)) [] mixed
      (
        position-IsDeclaration (all_tokens mixed),
        (color-IsDeclaration (all_tokens mixed), (width-IsDeclaration (all_tokens mixed), tt)),
      )
      refl

abbrev doubled : List Token
doubled = tokens color ++ semicolon ∷ all_tokens (width ∷ position ∷ [])

sanitize_style-empty_example : sanitize_style (scanner doubled) [] ≡ txt "color:red;/*CHAR*/"
unfolding is_allowed txt to_lower comment
sanitize_style-empty_example =
    sanitize_style-empty (scanner doubled) [] color width (position ∷ [])
      (color-IsDeclaration doubled) (width-IsDeclaration doubled)
      (position-IsDeclaration doubled, tt) refl

abbrev spaced : List Token
spaced = space ∷ ident (txt "color") ∷ char (txt ":") ∷ ident (txt "red") ∷ []

kept_of_spaced : sanitize_style (scanner spaced) [] ≡ txt "color:red"
unfolding is_allowed is_semicolon txt to_lower shown_all segments
kept_of_spaced = sanitize_style-segments (scanner spaced) []

abbrev tokenizer : Tokenizer
tokenizer = record {
  css = scanner (tokens color);
  tokenize = λ s. (
    start_tag (txt "<p STYLE='color:red;'>") (txt "p")
          (record { key = txt "style"; value = s } ∷ [])
        ∷ other_token (txt "hi")
        ∷ [],
    false,
  );
  escape = λ s. s;
  policy = λ s. s;
}

style_tag_written :
    (write_tag tokenizer []
        (txt "raw")
        (txt "p")
        (record { key = txt "style"; value = txt "x" } ∷ [])
      ≡ txt "<p style=" ++ b'"' ∷ txt "color:red;" ++ b'"' ∷ b'>' ∷ [])
    × All (IsSafe tokenizer) (clean tokenizer (record { key = txt "style"; value = txt "x" } ∷ []))
unfolding clean is_style sanitize_style is_allowed is_semicolon txt to_lower
style_tag_written =
    write_tag-clean tokenizer [] (txt "raw") (txt "p")
      (record { key = txt "style"; value = txt "x" }) []
