-- ===== src/Sanitize/Tags.antt =====
-- pkg/webui/sanitize/html.go. The tokenizer of x/net/html is a parameter, as are html.EscapeString and
-- the policy of bluemonday. What is written goes to a buffer in memory, so no write fails.
use go_inbucket.Base.{
  ◌≡◌, refl, ap, Bool, true, false, not, ◌||◌, Option, none, some, List, [], ◌∷◌, ◌++◌, ◌⊎◌, inl,
  inr, Bool-cases, if◌then◌else◌, Bytes, bytes_eq, txt, All,
}
use go_inbucket.GoText.{to_lower}
use go_inbucket.Sanitize.Css.{Scanner, sanitize_style}

-- What `TagAttr` returns for an attribute.
pub record Attribute : Type 0 where
  pub key : Bytes
  pub value : Bytes

-- A tag has attributes if `TagName` says so; `raw` is the token as it was read.
pub data HtmlToken : Type 0 where
  start_tag : Bytes → Bytes → List Attribute → HtmlToken
  self_closing_tag : Bytes → Bytes → List Attribute → HtmlToken
  other_token : Bytes → HtmlToken

-- The tokens of a text up to the error token, and whether its error is another than the end.
pub record Tokenizer : Type 0 where
  pub css : Scanner
  pub tokenize : Bytes → List HtmlToken × Bool
  pub escape : Bytes → Bytes
  pub policy : Bytes → Bytes

abbrev pub is_nil : Bytes → Bool
is_nil [] = true
is_nil (x ∷ xs) = false

module _ (z : Tokenizer) where
  unfoldable pub is_style : Attribute → Bool
  is_style a = bytes_eq (to_lower z.css.unicode a.key) (txt "style")

  abbrev pub print : Attribute → Bytes
  print a = b' ' ∷ a.key ++ b'=' ∷ b'"' ∷ z.escape a.value ++ b'"' ∷ []

  -- One round of the loop over the attributes.
  unfoldable pub write_attribute : Attribute → Bytes
  write_attribute a =
      let strval = if is_style a then sanitize_style z.css a.value else a.value in
      if not (is_style a) || not (is_nil strval) then print (record a { value = strval }) else []

  unfoldable pub write_attributes : List Attribute → Bytes
  unfolding write_attribute
  write_attributes [] = []
  write_attributes (a ∷ as') = write_attribute a ++ write_attributes as'

  -- What is written for a tag; `slash` ends one that closes itself.
  unfoldable pub write_tag : Bytes → Bytes → Bytes → List Attribute → Bytes
  unfolding write_attributes
  write_tag slash raw name [] = raw
  write_tag slash raw name (a ∷ more) =
      b'<' ∷ name ++ write_attributes (a ∷ more) ++ slash ++ b'>' ∷ []

  unfoldable pub write_token : HtmlToken → Bytes
  unfolding write_tag
  write_token (start_tag raw name attributes) = write_tag [] raw name attributes
  write_token (self_closing_tag raw name attributes) = write_tag (b'/' ∷ []) raw name attributes
  write_token (other_token raw) = raw

  -- The loop of `styleTagFilter`.
  unfoldable pub write_tokens : List HtmlToken → Bytes
  unfolding write_token
  write_tokens [] = []
  write_tokens (t ∷ ts) = write_token t ++ write_tokens ts

  -- `sanitizeStyleTags`; `none` is an error.
  unfoldable pub sanitize_style_tags : Bytes → Option Bytes
  unfolding write_tokens
  sanitize_style_tags input =
      let (ts, failed) = z.tokenize input in if failed then none else some (write_tokens ts)

  -- `HTML`.
  unfoldable pub html : Bytes → Option Bytes
  unfolding sanitize_style_tags
  html input = elim (sanitize_style_tags input) [ none ↦ none | some b ↦ some (z.policy b) ]

  -- The attributes that are left of some: a style that is empty after it was sanitized is left out.
  unfoldable pub clean : List Attribute → List Attribute
  clean [] = []
  clean (a ∷ more) =
      let rest = clean more in
      if is_style a
      then (let style = sanitize_style z.css a.value in
          if is_nil style then rest else record a { value = style } ∷ rest)
      else a ∷ rest

  abbrev pub printed : List Attribute → Bytes
  printed [] = []
  printed (a ∷ more) = print a ++ printed more

  write_attribute-plain : (a : Attribute) → is_style a ≡ false → write_attribute a ≡ print a
  unfolding write_attribute
  write_attribute-plain a p = rw p refl

  write_attribute-style :
      (a : Attribute)
      → is_style a ≡ true
      → write_attribute a ≡ (
          if is_nil (sanitize_style z.css a.value)
          then []
          else print (record a { value = sanitize_style z.css a.value }))
  unfolding write_attribute
  write_attribute-style a p = rw p (flip (is_nil (sanitize_style z.css a.value)) _)
    where
      flip : (b : Bool) (x : Bytes) → (if not b then x else []) ≡ (if b then [] else x)
      flip true x = refl
      flip false x = refl

  write_attributes-clean : (l : List Attribute) → write_attributes l ≡ printed (clean l)
  unfolding write_attributes clean
  write_attributes-clean [] = refl
  write_attributes-clean (a ∷ more) =
      let ih = write_attributes-clean more in
      elim (Bool-cases (is_style a)) [
        | inl p ↦ elim (Bool-cases (is_nil (sanitize_style z.css a.value))) [
          | inl q ↦ rw (write_attribute-style a p, p, q) ih
          | inr q ↦
              let b : Attribute = record a { value = sanitize_style z.css a.value } in
              rw (write_attribute-style a p, p, q) (ap (◌++◌ (print b)) ih)
        ]
        | inr p ↦ rw (write_attribute-plain a p, p) (ap (◌++◌ (print a)) ih)
      ]

  -- An attribute that is no style, or one whose value is what is left of some style, and not empty.
  abbrev pub IsSafe : Attribute → Type 0
  IsSafe a =
      (is_style a ≡ false)
      ⊎ ((v : Bytes) × (a.value ≡ sanitize_style z.css v) × (is_nil a.value ≡ false))

  clean-IsSafe : (l : List Attribute) → All IsSafe (clean l)
  unfolding clean
  clean-IsSafe [] = tt
  clean-IsSafe (a ∷ more) =
      let ih = clean-IsSafe more in
      elim (Bool-cases (is_style a)) [
        | inl p ↦ elim (Bool-cases (is_nil (sanitize_style z.css a.value))) [
          | inl q ↦ rw (p, q) ih
          | inr q ↦ rw (p, q) (inr (a.value, refl, q), ih)
        ]
        | inr p ↦ rw p (inl p, ih)
      ]

  -- A tag that has attributes is written with those of them, in their order, that are no style, and
  -- with the styles that are not empty after they were sanitized, in that form: each style in what is
  -- written is what `sanitize_style` left of some text.
  pub write_tag-clean :
      (slash raw name : Bytes) (a : Attribute) (more : List Attribute)
      → (write_tag slash raw name (a ∷ more)
          ≡ b'<' ∷ name ++ printed (clean (a ∷ more)) ++ slash ++ b'>' ∷ [])
        × All IsSafe (clean (a ∷ more))
  unfolding write_tag
  write_tag-clean slash raw name a more = (
    ap (λ x. b'<' ∷ name ++ x ++ slash ++ b'>' ∷ []) (write_attributes-clean (a ∷ more)),
    clean-IsSafe (a ∷ more),
  )
