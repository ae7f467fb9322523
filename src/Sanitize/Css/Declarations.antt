-- ===== src/Sanitize/Css/Declarations.antt =====
-- css.go on a style that is a list of declarations.
use go_inbucket.Base.{
  ◌≡◌, refl, ap, ◌∙◌, sym, Bool, true, false, List, [], ◌∷◌, ◌++◌, Bool-cases, inl, inr, Bytes,
  append_assoc, append-nil, keep, keep-append, All, txt, bytes_eq,
}
use go_inbucket.Sanitize.Css.{
  token_ident, token_char, Token, Scanner, is_allowed, is_semicolon, comment, is_error,
  sanitize_style,
}
use go_inbucket.Sanitize.Css.Segments.{
  segments, text, shown, shown_all, has_error, sanitize_style-segments,
}

-- A name, and the tokens between it and the semicolon.
pub record Declaration : Type 0 where
  pub name : Bytes
  pub body : List Token

abbrev pub semicolon : Token
semicolon = record { type = token_char; value = txt ";" }

abbrev pub tokens : Declaration → List Token
tokens d = record { type = token_ident; value = d.name } ∷ (d.body ++ semicolon ∷ [])

abbrev pub all_tokens : List Declaration → List Token
all_tokens [] = []
all_tokens (d ∷ ds) = tokens d ++ all_tokens ds

-- The text of some declarations.
abbrev pub texts : List Declaration → Bytes
texts [] = []
texts (d ∷ ds) = text (tokens d) ++ texts ds

module _ (c : Scanner) where
  -- No semicolon and no error of the scanner.
  abbrev pub IsInner : Token → Type 0
  IsInner t = (is_semicolon t ≡ false) × (is_error c t.type ≡ false)

  abbrev pub IsDeclaration : Declaration → Type 0
  IsDeclaration d = All IsInner d.body

  segments-body :
      (body ts : List Token)
      → All IsInner body
      → segments (body ++ semicolon ∷ ts) ≡ (body ++ semicolon ∷ []) ∷ segments ts
  unfolding segments is_semicolon
  segments-body [] ts h = refl
  segments-body (t ∷ body) ts h = rw (h.0.0, segments-body body ts h.1) refl

  has_error-body :
      (body ts : List Token)
      → All IsInner body
      → has_error c (body ++ semicolon ∷ ts) ≡ has_error c ts
  has_error-body [] ts h = refl
  has_error-body (t ∷ body) ts h = rw h.0.1 (has_error-body body ts h.1)

  segments-tokens :
      (d : Declaration) (ts : List Token)
      → IsDeclaration d
      → segments (tokens d ++ ts) ≡ tokens d ∷ segments ts
  unfolding segments is_semicolon
  segments-tokens d ts h =
      rw (append_assoc d.body (semicolon ∷ []) ts, segments-body d.body ts h) refl

  has_error-tokens :
      (d : Declaration) (ts : List Token)
      → IsDeclaration d
      → has_error c (tokens d ++ ts) ≡ has_error c ts
  has_error-tokens d ts h =
      rw (append_assoc d.body (semicolon ∷ []) ts) (has_error-body d.body ts h)

  has_error-all_tokens :
      (ds : List Declaration) → All IsDeclaration ds → has_error c (all_tokens ds) ≡ false
  has_error-all_tokens [] h = refl
  has_error-all_tokens (d ∷ ds) h =
      has_error-tokens d (all_tokens ds) h.0 ∙ has_error-all_tokens ds h.1

  abbrev pub is_kept : Declaration → Bool
  is_kept d = is_allowed c.unicode d.name

  shown_all-tokens :
      (d : Declaration) (ts : List Token)
      → IsDeclaration d
      → shown_all c false (segments (tokens d ++ ts))
        ≡ texts (keep is_kept (d ∷ [])) ++ shown_all c false (segments ts)
  unfolding shown_all shown is_semicolon
  shown_all-tokens d ts h =
      ap (shown_all c false) (segments-tokens d ts h)
      ∙ elim (Bool-cases (is_allowed c.unicode d.name)) [
        | inl p ↦ rw (p, append-nil (text (tokens d))) refl
        | inr p ↦ rw p refl
      ]

  texts-append : (ds es : List Declaration) → texts (ds ++ es) ≡ texts ds ++ texts es
  texts-append [] es = refl
  texts-append (d ∷ ds) es =
      ap (◌++◌ (text (tokens d))) (texts-append ds es) ∙ sym (append_assoc (text (tokens d)) _ _)

  shown_all-all_tokens :
      (ds : List Declaration)
      → All IsDeclaration ds
      → shown_all c false (segments (all_tokens ds)) ≡ texts (keep is_kept ds)
  unfolding shown_all segments
  shown_all-all_tokens [] h = refl
  shown_all-all_tokens (d ∷ ds) h =
      shown_all-tokens d (all_tokens ds) h.0
      ∙ ap (◌++◌ (texts (keep is_kept (d ∷ [])))) (shown_all-all_tokens ds h.1)
      ∙ sym (texts-append (keep is_kept (d ∷ [])) (keep is_kept ds))
      ∙ ap texts (sym (keep-append is_kept (d ∷ []) ds))

  -- A style that is scanned as declarations, each a name, tokens that are neither a semicolon nor an
  -- error, and a semicolon, is left with exactly those of them whose name is an allowed property,
  -- unchanged and in their order.
  pub sanitize_style-keep :
      (input : Bytes) (ds : List Declaration)
      → All IsDeclaration ds
      → c.scan input ≡ all_tokens ds
      → sanitize_style c input ≡ texts (keep is_kept ds)
  sanitize_style-keep input ds h scanned =
      sanitize_style-segments c input
      ∙ rw (scanned, has_error-all_tokens ds h) (shown_all-all_tokens ds h)

  shown_all-empty :
      (e : Declaration) (ts : List Token)
      → IsDeclaration e
      → shown_all c false (segments (semicolon ∷ (tokens e ++ ts)))
        ≡ comment c semicolon ++ shown_all c false (segments ts)
  unfolding shown_all shown is_semicolon bytes_eq txt segments
  shown_all-empty e ts h =
      ap (λ x. comment c semicolon ++ shown_all c true x) (segments-tokens e ts h)

  -- Where a style is scanned as declarations, as above, but with an empty one, a semicolon alone, behind
  -- the first, the declaration that follows the empty one is not left in the style, whatever its name. A comment stands in its
  -- place, and of the others those are left whose name is an allowed property.
  pub sanitize_style-empty :
      (input : Bytes) (d e : Declaration) (ds : List Declaration)
      → IsDeclaration d
      → IsDeclaration e
      → All IsDeclaration ds
      → c.scan input ≡ tokens d ++ (semicolon ∷ all_tokens (e ∷ ds))
      → sanitize_style c input
        ≡ texts (keep is_kept (d ∷ [])) ++ (comment c semicolon ++ texts (keep is_kept ds))
  sanitize_style-empty input d e ds hd he hs scanned =
      let rest : List Token = semicolon ∷ all_tokens (e ∷ ds) in
      let fine : has_error c (tokens d ++ rest) ≡ false =
        has_error-tokens d rest hd ∙ has_error-all_tokens (e ∷ ds) (he, hs) in
      sanitize_style-segments c input
      ∙ rw (scanned, fine)
          (shown_all-tokens d rest hd
            ∙ ap (λ x. texts (keep is_kept (d ∷ [])) ++ x)
                (shown_all-empty e (all_tokens ds) he
                  ∙ ap (λ x. comment c semicolon ++ x) (shown_all-all_tokens ds hs)))
