-- ===== src/Sanitize/Css/Segments.antt =====
-- css.go against a description of its output by declarations.
use go_inbucket.Base.{
  ◌≡◌, refl, ap, ◌∙◌, ◌||◌, Bool, true, false, List, [], ◌∷◌, ◌++◌, sym, Bool-cases, inl, inr,
  if◌then◌else◌, Bytes, append_assoc, append-nil,
}
use go_inbucket.Sanitize.Css.{
  TokenType, token_error, token_ident, token_s, token_char, token_other, Token, Scanner, State,
  state_start, state_eat, state_valid, is_allowed, is_semicolon, comment, on_start, on_eat,
  on_valid, handle, is_error, sanitize_tokens, sanitize_style,
}

-- The tokens up to each semicolon, and the rest.
abbrev pub after : Token → List (List Token) → List (List Token)
after t [] = (t ∷ []) ∷ []
after t (seg ∷ segs) = (t ∷ seg) ∷ segs

unfoldable pub segments : List Token → List (List Token)
segments [] = []
segments (t ∷ ts) =
    let rest = segments ts in if is_semicolon t then (t ∷ []) ∷ rest else after t rest

-- A declaration without the space before it.
abbrev pub strip : List Token → List Token
strip [] = []
strip (t ∷ ts) = elim t.type [ token_s ↦ strip ts | _ ↦ t ∷ ts ]

abbrev pub text : List Token → Bytes
text [] = []
text (t ∷ ts) = t.value ++ text ts

module _ (c : Scanner) where
  -- What is left of a declaration: all of it if its first token is an allowed property, else nothing,
  -- or a comment in its place if that token is no name.
  unfoldable pub shown : List Token → Bytes
  shown [] = []
  shown (t ∷ ts) = elim t.type [
    | token_ident ↦ if is_allowed c.unicode t.value then text (t ∷ ts) else []
    | token_s ↦ []
    | token_char ↦ comment c t
    | token_error ↦ comment c t
    | token_other n ↦ comment c t
  ]

  abbrev pub is_empty : List Token → Bool
  is_empty [] = false
  is_empty (t ∷ ts) = is_semicolon t

  -- An empty declaration takes the next one with it.
  unfoldable pub shown_all : Bool → List (List Token) → Bytes
  unfolding shown
  shown_all b [] = []
  shown_all true (seg ∷ segs) = shown_all false segs
  shown_all false (seg ∷ segs) = shown (strip seg) ++ shown_all (is_empty (strip seg)) segs

  -- What follows the first token of an allowed declaration.
  shown_after : List (List Token) → Bytes
  shown_after [] = []
  shown_after (seg ∷ segs) = text seg ++ shown_all false segs

  abbrev pub IsScanned : Token → Type 0
  IsScanned t = is_error c t.type ≡ false

  -- What is still to be written, by the state.
  shown_from : State → List (List Token) → Bytes
  unfolding shown_all shown_after
  shown_from state_start segs = shown_all false segs
  shown_from state_eat segs = shown_all true segs
  shown_from state_valid segs = shown_after segs

  -- One token written, or left out, is one token less to write.
  abbrev Steps : State → Bytes → Token → List Token → Type 0
  Steps s b t ts =
      (handle c s b t).1 ++ shown_from (handle c s b t).0 (segments ts)
      ≡ b ++ shown_from s (segments (t ∷ ts))

  shown_all-after :
      (t : Token) (segs : List (List Token)) → shown_all true (after t segs) ≡ shown_all true segs
  unfolding shown_all
  shown_all-after t [] = refl
  shown_all-after t (seg ∷ segs) = refl

  shown_after-after :
      (t : Token) (segs : List (List Token))
      → shown_after (after t segs) ≡ t.value ++ shown_after segs
  unfolding shown_after shown_all
  shown_after-after t [] = simp append-nil
  shown_after-after t (seg ∷ segs) = append_assoc t.value (text seg) _

  eat_step : (t : Token) (b : Bytes) (ts : List Token) → Steps state_eat b t ts
  unfolding handle on_eat shown_from shown_all segments
  eat_step t b ts = elim (Bool-cases (is_semicolon t)) [
    | inl p ↦ rw p refl
    | inr p ↦ rw p (ap (◌++◌ b) (sym (shown_all-after t (segments ts))))
  ]

  valid_step : (t : Token) (b : Bytes) (ts : List Token) → Steps state_valid b t ts
  unfolding handle on_valid shown_from shown_all shown_after segments
  valid_step t b ts = elim (Bool-cases (is_semicolon t)) [
    | inl p ↦ rw p (simp (append_assoc, append-nil))
    | inr p ↦ rw (p, shown_after-after t (segments ts)) (append_assoc b t.value _)
  ]

  -- A declaration that begins with a token of an unexpected type.
  odd_after :
      (t : Token) (segs : List (List Token))
      → ((ts : List Token) → strip (t ∷ ts) ≡ t ∷ ts)
      → ((ts : List Token) → shown (t ∷ ts) ≡ comment c t)
      → is_semicolon t ≡ false
      → shown_all false (after t segs) ≡ comment c t ++ shown_all true segs
  unfolding shown_all
  odd_after t [] shape says p = rw (shape [], says []) refl
  odd_after t (seg ∷ segs) shape says p = rw (shape seg, says seg, p) refl

  odd_step :
      (t : Token) (b : Bytes) (ts : List Token)
      → ((ts : List Token) → strip (t ∷ ts) ≡ t ∷ ts)
      → ((ts : List Token) → shown (t ∷ ts) ≡ comment c t)
      → (b ++ comment c t) ++ shown_all true (segments ts)
        ≡ b ++ shown_all false (segments (t ∷ ts))
  unfolding shown_all segments
  odd_step t b ts shape says = elim (Bool-cases (is_semicolon t)) [
    | inl p ↦ rw (p, shape [], says [], p) (append_assoc b (comment c t) _)
    | inr p ↦ rw (p, odd_after t (segments ts) shape says p) (append_assoc b (comment c t) _)
  ]

  allowed_after :
      (v : Bytes) (segs : List (List Token))
      → let t : Token = record { type = token_ident; value = v } in
        shown_all false (after t segs)
        ≡ (if is_allowed c.unicode v then v ++ shown_after segs else shown_all true segs)
  unfolding shown_all shown_after shown is_semicolon
  allowed_after v [] = elim (Bool-cases (is_allowed c.unicode v)) [
    | inl p ↦ rw p (simp append-nil)
    | inr p ↦ rw p refl
  ]
  allowed_after v (seg ∷ segs) = elim (Bool-cases (is_allowed c.unicode v)) [
    | inl p ↦ rw p (append_assoc v (text seg) _)
    | inr p ↦ rw p refl
  ]

  space_after :
      (v : Bytes) (segs : List (List Token))
      → shown_all false (after (record { type = token_s; value = v }) segs) ≡ shown_all false segs
  unfolding shown_all shown
  space_after v [] = refl
  space_after v (seg ∷ segs) = refl

  start_step :
      (k : TokenType) (v b : Bytes) (ts : List Token)
      → is_error c k ≡ false
      → Steps state_start b (record { type = k; value = v }) ts
  unfolding handle on_start shown_from segments is_semicolon shown
  start_step token_ident v b ts h =
      rw (allowed_after v (segments ts)) (elim (Bool-cases (is_allowed c.unicode v)) [
        | inl p ↦ rw p (append_assoc b v _)
        | inr p ↦ rw p refl
      ])
  start_step token_s v b ts h = ap (◌++◌ b) (sym (space_after v (segments ts)))
  start_step token_char v b ts h =
      odd_step (record { type = token_char; value = v }) b ts (λ r. refl) (λ r. refl)
  start_step token_error v b ts h = cc
  start_step (token_other n) v b ts h =
      odd_step (record { type = token_other n; value = v }) b ts (λ r. refl) (λ r. refl)

  handle-Steps :
      (s : State) (t : Token) (b : Bytes) (ts : List Token)
      → is_error c t.type ≡ false
      → Steps s b t ts
  handle-Steps state_start t b ts h = start_step t.type t.value b ts h
  handle-Steps state_eat t b ts h = eat_step t b ts
  handle-Steps state_valid t b ts h = valid_step t b ts

  abbrev pub has_error : List Token → Bool
  has_error [] = false
  has_error (t ∷ ts) = is_error c t.type || has_error ts

  nothing_left : (s : State) → shown_from s [] ≡ []
  unfolding shown_from shown_all shown_after
  nothing_left state_start = refl
  nothing_left state_eat = refl
  nothing_left state_valid = refl

  sanitize_tokens_lem :
      (ts : List Token) (s : State) (b : Bytes)
      → sanitize_tokens c s b ts ≡ (if has_error ts then [] else b ++ shown_from s (segments ts))
  unfolding sanitize_tokens segments
  sanitize_tokens_lem [] s b = rw (nothing_left s) (sym (append-nil b))
  sanitize_tokens_lem (t ∷ ts) s b =
      let r = handle c s b t in
      elim (Bool-cases (is_error c t.type)) [
        | inl e ↦ rw e refl
        | inr e ↦ rw e (
            sanitize_tokens_lem ts r.0 r.1
            ∙ ap (λ x. if has_error ts then [] else x) (handle-Steps s t b ts e))
      ]

  -- For every scanner: if the scan of a style has an error, nothing is left of the style. Otherwise
  -- its declarations, each up to its semicolon, are taken one by one. One whose first token that is
  -- not space is the name of an allowed property is copied from that token on; one whose first such
  -- token is another name leaves nothing; one that begins with anything else leaves a comment, and if
  -- that token is its semicolon, the next declaration leaves nothing either.
  pub sanitize_style-segments :
      (input : Bytes)
      → sanitize_style c input
        ≡ (if has_error (c.scan input) then [] else shown_all false (segments (c.scan input)))
  unfolding sanitize_style shown_from
  sanitize_style-segments input = sanitize_tokens_lem (c.scan input) state_start []
