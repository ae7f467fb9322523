-- ===== src/Metric.antt =====
-- pkg/metric/metric.go: the history of a metric and its text, and the functions that are called each
-- minute.
use go_inbucket.Base.{
  ℕ, zero, suc, ◌-◌, ◌≤◌, ◌≡◌, refl, ap, sym, ◌∙◌, arith, List, [], ◌∷◌, ◌++◌, ltb, if◌then◌else◌,
  Bytes, length, drop, length-append, append_assoc, append-nil, inl, inr, Bool-cases, length-drop,
}

-- `strings.Join` with commas; `joinStringList` gives the empty text for an empty list, as this does.
unfoldable pub join : List Bytes → Bytes
join [] = []
join (s ∷ []) = s
join (s ∷ t ∷ more) = s ++ (b',' ∷ join (t ∷ more))

-- `Push`: the history after it, and the text.
unfoldable pub push : List Bytes → Bytes → List Bytes × Bytes
unfolding join
push history value =
    let longer = history ++ value ∷ [] in
    let kept = if ltb 61 (length longer) then drop 1 longer else longer in (kept, join kept)

-- What `metricsTicker` meets: a tick, or a function to add.
pub data TickerEvent (F : Type 0) : Type 0 where
  tick : TickerEvent F
  add_func : F → TickerEvent F

-- The functions that it calls, in order.
unfoldable pub metrics_ticker : {F : Type 0} → List F → List (TickerEvent F) → List F
metrics_ticker funcs [] = []
metrics_ticker funcs (tick ∷ events) = funcs ++ metrics_ticker funcs events
metrics_ticker funcs (add_func f ∷ events) = metrics_ticker (funcs ++ f ∷ []) events

unfoldable pub push_all : List Bytes → List Bytes → List Bytes
unfolding push
push_all history [] = history
push_all history (v ∷ vs) = push_all (push history v).0 vs

-- The last 61 of a list.
abbrev pub last_61 : List Bytes → List Bytes
last_61 vs = drop (length vs - 61) vs

drop_snoc :
    (n : ℕ) (xs : List Bytes) (x : Bytes)
    → n ≤ length xs
    → drop n (xs ++ x ∷ []) ≡ drop n xs ++ x ∷ []
drop_snoc zero xs x h = refl
drop_snoc (suc n) [] x h = absurd (omega arith)
drop_snoc (suc n) (y ∷ xs) x h = drop_snoc n xs x (omega arith)

drop-drop : (n : ℕ) (xs : List Bytes) → drop 1 (drop n xs) ≡ drop (suc n) xs
drop-drop zero xs = refl
drop-drop (suc n) [] = refl
drop-drop (suc n) (x ∷ xs) = drop-drop n xs

push-last_61 : (vs : List Bytes) (v : Bytes) → (push (last_61 vs) v).0 ≡ last_61 (vs ++ v ∷ [])
unfolding push
push-last_61 vs v =
    let n = length vs - 61 in
    let long = length-append vs (v ∷ []) in
    let kept = length-drop n vs in
    let joined = length-append (drop n vs) (v ∷ []) in
    let moved = drop_snoc n vs v (omega arith) in
    elim (Bool-cases (ltb 61 (length (drop n vs ++ v ∷ [])))) [
      | inl p ↦
          let more : length (vs ++ v ∷ []) - 61 ≡ suc n = ground (arith, p, long, kept, joined) in
          rw p (
            ap (drop 1) (sym moved)
            ∙ drop-drop n (vs ++ v ∷ [])
            ∙ ap (λ k. drop k (vs ++ v ∷ [])) (sym more))
      | inr p ↦
          let same : length (vs ++ v ∷ []) - 61 ≡ n = ground (arith, p, long, kept, joined) in
          rw p (sym moved ∙ ap (λ k. drop k (vs ++ v ∷ [])) (sym same))
    ]

push_all-last_61 : (us vs : List Bytes) → push_all (last_61 us) vs ≡ last_61 (us ++ vs)
unfolding push_all
push_all-last_61 us [] = ap last_61 (sym (append-nil us))
push_all-last_61 us (v ∷ vs) =
    ap (λ h. push_all h vs) (push-last_61 us v)
    ∙ push_all-last_61 (us ++ v ∷ []) vs
    ∙ ap last_61 (append_assoc us (v ∷ []) vs)

-- After any values were pushed to an empty history, and then one more, the text is the last 61 of all
-- of them, in order, joined by commas.
pub push-join :
    (vs : List Bytes) (v : Bytes) → (push (push_all [] vs) v).1 ≡ join (last_61 (vs ++ v ∷ []))
unfolding push
push-join vs v = ap (λ h. (push h v).1) (push_all-last_61 [] vs) ∙ ap join (push-last_61 vs v)
