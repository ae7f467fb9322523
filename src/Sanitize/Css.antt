-- ===== src/Sanitize/Css.antt =====
-- pkg/webui/sanitize/css.go. The scanner of the gorilla css package is a parameter: it turns a text
-- into its tokens before the end of the file.
pub mod Segments
pub mod Declarations
use go_inbucket.Base.{
  Bool, true, false, ◌&&◌, ◌||◌, List, [], ◌∷◌, ◌++◌, ℕ, if◌then◌else◌, Bytes, txt, bytes_eq,
}
use go_inbucket.GoText.{Unicode, to_lower}

-- The types of tokens that the program tells apart, and the others.
pub data TokenType : Type 0 where
  token_error : TokenType
  token_ident : TokenType
  token_s : TokenType
  token_char : TokenType
  token_other : ℕ → TokenType

pub record Token : Type 0 where
  pub type : TokenType
  pub value : Bytes

-- The scanner, the names of its types of tokens, and the tables of Unicode.
pub record Scanner : Type 0 where
  pub unicode : Unicode
  pub scan : Bytes → List Token
  pub type_name : TokenType → Bytes

-- `stateHandler`. No handler returns nil.
pub data State : Type 0 where
  state_start : State
  state_eat : State
  state_valid : State

unfoldable pub allowed_properties : List Bytes
unfolding txt
allowed_properties =
    txt "align"
    ∷ txt "background-color"
    ∷ txt "border"
    ∷ txt "border-bottom"
    ∷ txt "border-left"
    ∷ txt "border-radius"
    ∷ txt "border-right"
    ∷ txt "border-top"
    ∷ txt "box-sizing"
    ∷ txt "clear"
    ∷ txt "color"
    ∷ txt "content"
    ∷ txt "display"
    ∷ txt "font-family"
    ∷ txt "font-size"
    ∷ txt "font-weight"
    ∷ txt "height"
    ∷ txt "line-height"
    ∷ txt "margin"
    ∷ txt "margin-bottom"
    ∷ txt "margin-left"
    ∷ txt "margin-right"
    ∷ txt "margin-top"
    ∷ txt "max-height"
    ∷ txt "max-width"
    ∷ txt "overflow"
    ∷ txt "padding"
    ∷ txt "padding-bottom"
    ∷ txt "padding-left"
    ∷ txt "padding-right"
    ∷ txt "padding-top"
    ∷ txt "table-layout"
    ∷ txt "text-align"
    ∷ txt "text-decoration"
    ∷ txt "text-shadow"
    ∷ txt "vertical-align"
    ∷ txt "width"
    ∷ txt "word-break"
    ∷ []

abbrev pub is_member : Bytes → List Bytes → Bool
is_member k [] = false
is_member k (x ∷ xs) = bytes_eq k x || is_member k xs

-- The lookup in `allowedProperties`.
unfoldable pub is_allowed : Unicode → Bytes → Bool
unfolding allowed_properties bytes_eq to_lower
is_allowed u name = is_member (to_lower u name) allowed_properties

abbrev is_char : TokenType → Bool
is_char token_char = true
is_char _ = false

-- The test for the token `;`.
unfoldable pub is_semicolon : Token → Bool
unfolding bytes_eq txt
is_semicolon t = is_char t.type && bytes_eq t.value (txt ";")

module _ (c : Scanner) where
  -- What `stateStart` writes for a token of an unexpected type.
  unfoldable pub comment : Token → Bytes
  unfolding txt
  comment t = txt "/*" ++ c.type_name t.type ++ txt "*/"

  unfoldable pub on_start : Bytes → Token → State × Bytes
  on_start b t = elim t.type [
    | token_ident ↦
        if is_allowed c.unicode t.value then (state_valid, b ++ t.value) else (state_eat, b)
    | token_s ↦ (state_start, b)
    | token_char ↦ (state_eat, b ++ comment t)
    | token_error ↦ (state_eat, b ++ comment t)
    | token_other n ↦ (state_eat, b ++ comment t)
  ]

  unfoldable pub on_eat : Bytes → Token → State × Bytes
  unfolding is_semicolon
  on_eat b t = (if is_semicolon t then state_start else state_eat, b)

  unfoldable pub on_valid : Bytes → Token → State × Bytes
  unfolding is_semicolon
  on_valid b t = (if is_semicolon t then state_start else state_valid, b ++ t.value)

  unfoldable pub handle : State → Bytes → Token → State × Bytes
  unfolding on_start on_eat on_valid
  handle state_start = on_start
  handle state_eat = on_eat
  handle state_valid = on_valid

  abbrev pub is_error : TokenType → Bool
  is_error token_error = true
  is_error _ = false

  -- The loop of `sanitizeStyle`, from a state and what the buffer holds.
  unfoldable pub sanitize_tokens : State → Bytes → List Token → Bytes
  unfolding handle
  sanitize_tokens s b [] = b
  sanitize_tokens s b (t ∷ ts) =
      let rest = sanitize_tokens (handle s b t).0 (handle s b t).1 ts in
      if is_error t.type then [] else rest

  unfoldable pub sanitize_style : Bytes → Bytes
  unfolding sanitize_tokens
  sanitize_style input = sanitize_tokens state_start [] (c.scan input)
