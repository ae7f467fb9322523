-- ===== src/Msghub/History.antt =====
-- The history of the hub, and what a new listener is told of it.
use go_inbucket.Base.{
  ℕ, zero, suc, ◌-◌, ◌<◌, ◌≡◌, refl, sym, ap, ◌∙◌, Bool, Option, none, some, List, [], ◌∷◌, ◌++◌,
  map, arith, length, drop, replicate, length-append, length-replicate, append_assoc, append-nil,
}
use go_inbucket.Msghub.{Told, received, Hub, new_hub, entries, dispatch, add_listener, dispatch_all}
use go_inbucket.Storage.Message.{Metadata}

history-dispatch :
    (accepts : ℕ → Told → Bool) (m : Metadata) (h : Hub) {v : Option Metadata}
    {rest : List (Option Metadata)}
    → h.history ≡ v ∷ rest
    → (dispatch accepts m h).history ≡ rest ++ some m ∷ []
unfolding dispatch
history-dispatch accepts m h e = rw (e, dispatch) refl

-- Each message pushes the oldest entry out.
history-dispatch_all :
    (accepts : ℕ → Told → Bool) (ms : List Metadata) (h : Hub)
    → 0 < length h.history
    → (dispatch_all accepts ms h).history ≡ drop (length ms) (h.history ++ map some ms)
unfolding dispatch_all
history-dispatch_all accepts [] h pos = sym (append-nil h.history)
history-dispatch_all accepts (m ∷ ms) h pos =
    go h.history refl (history-dispatch_all accepts ms (dispatch accepts m h))
  where
    go :
        (r : List (Option Metadata))
        → h.history ≡ r
        → (0 < length (dispatch accepts m h).history
            → (dispatch_all accepts ms (dispatch accepts m h)).history
              ≡ drop (length ms) ((dispatch accepts m h).history ++ map some ms))
        → (dispatch_all accepts ms (dispatch accepts m h)).history
          ≡ drop (length (m ∷ ms)) (h.history ++ map some (m ∷ ms))
    go [] e next = absurd (omega (arith, pos, ap length e))
    go (v ∷ rest) e next =
        let now = history-dispatch accepts m h e in
        let filled : 0 < length (dispatch accepts m h).history =
          omega (arith, ap length now, length-append rest (some m ∷ [])) in
        next filled
        ∙ ap (λ x. drop (length ms) (x ++ map some ms)) now
        ∙ ap (drop (length ms)) (append_assoc rest (some m ∷ []) (map some ms))
        ∙ ap (λ r. drop (length (m ∷ ms)) (r ++ map some (m ∷ ms))) (sym e)

entries-drop : (k : ℕ) (ms : List Metadata) → entries (drop k (map some ms)) ≡ drop k ms
entries-drop zero [] = refl
entries-drop zero (m ∷ ms) = ap (◌∷◌ m) (entries-drop zero ms)
entries-drop (suc k) [] = refl
entries-drop (suc k) (m ∷ ms) = entries-drop k ms

entries-new :
    (n k : ℕ) (ms : List Metadata)
    → entries (drop k (replicate n none ++ map some ms)) ≡ drop (k - n) ms
entries-new zero k ms = entries-drop k ms ∙ ap (λ j. drop j ms) (omega arith)
entries-new (suc n) zero ms = entries-new n zero ms ∙ ap (λ j. drop j ms) (omega arith)
entries-new (suc n) (suc k) ms = entries-new n k ms ∙ ap (λ j. drop j ms) (omega arith)

-- Of the messages dispatched to a new hub with room for at least one, a listener that then joins is
-- told the last that there is room for, in the order in which they came, and nothing else.
pub add_listener-dispatch_all :
    (accepts : ℕ → Told → Bool) (n l : ℕ) (ms : List Metadata)
    → 0 < n
    → let h = dispatch_all accepts ms (new_hub n) in
      (add_listener l h).told ≡ h.told ++ map (λ m. (l, received m)) (drop (length ms - n) ms)
unfolding add_listener new_hub
add_listener-dispatch_all accepts n l ms pos =
    let h = dispatch_all accepts ms (new_hub n) in
    let room : 0 < length (new_hub n).history =
      omega (arith, pos, length-replicate {A = Option Metadata} n none) in
    let kept = history-dispatch_all accepts ms (new_hub n) room in
    ap (λ x. h.told ++ map (λ m. (l, received m)) x)
      (ap entries kept ∙ entries-new n (length ms) ms)
