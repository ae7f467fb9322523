-- ===== src/Storage/Mem/Order.antt =====
-- The sorting of `GetMessages`: a Go map yields its entries in any order, and the sort undoes it.
use mathlib.Core.List.Permᴰ
use mathlib.Core.List.{Perm, Permᴰ}
use mathlib.Core.Logic.{∥∥₁_elim}
use mathlib.Core.Path.{subst, ap₂}
use go_inbucket.Base.{ℕ, ◌+◌, ◌<◌, ◌≡◌, ◌≢◌, refl, sym, ap, ◌∙◌, List, [], ◌∷◌, arith, All}
use go_inbucket.Storage.Dict.{Dict, values}
use go_inbucket.Storage.Mem.Cap.{IsOrdered}
use go_inbucket.Storage.Mem.{insert_sorted, sort_by_index}
use go_inbucket.Storage.Message.{Message}

abbrev Apart : Message → List Message → Type 0
Apart m = All (λ n. m.index ≢ n.index)

-- No two messages have one number.
abbrev IsDistinct : List Message → Type 0
IsDistinct [] = Unit {0}
IsDistinct (m ∷ ms) = Apart m ms × IsDistinct ms

insert_sorted_comm :
    (a b : Message) (ms : List Message)
    → a.index ≢ b.index
    → insert_sorted a (insert_sorted b ms) ≡ insert_sorted b (insert_sorted a ms)
unfolding insert_sorted
insert_sorted_comm a b [] h = ground arith
insert_sorted_comm a b (n ∷ ms) h = ground (arith, insert_sorted_comm a b ms h)

All-perm : (P : Message → Type 0) {ms ns : List Message} → Permᴰ ms ns → All P ms → All P ns
All-perm P Permᴰ.nil h = tt
All-perm P (Permᴰ.cons e d) (p, h) = (subst P e p, All-perm P d h)
All-perm P (Permᴰ.swap e f) (p, (q, h)) = (subst P f q, (subst P e p, h))
All-perm P (Permᴰ.trans d e) h = All-perm P e (All-perm P d h)

IsDistinct-perm : {ms ns : List Message} → Permᴰ ms ns → IsDistinct ms → IsDistinct ns
IsDistinct-perm Permᴰ.nil h = tt
IsDistinct-perm (Permᴰ.cons {l₂ = l} e d) (p, h) =
    (subst (λ m. Apart m l) e (All-perm _ d p), IsDistinct-perm d h)
IsDistinct-perm (Permᴰ.swap {l = l} e f) ((n, p), (q, h)) = (
  (
    λ same. n (ap (λ m. m.index) e ∙ sym same ∙ sym (ap (λ m. m.index) f)),
    subst (λ m. Apart m l) f q,
  ),
  (subst (λ m. Apart m l) e p, h),
)
IsDistinct-perm (Permᴰ.trans d e) h = IsDistinct-perm e (IsDistinct-perm d h)

sort_by_index-perm :
    {ms ns : List Message} → Permᴰ ms ns → IsDistinct ms → sort_by_index ms ≡ sort_by_index ns
unfolding sort_by_index
sort_by_index-perm Permᴰ.nil h = refl
sort_by_index-perm (Permᴰ.cons e d) (p, h) = ap₂ insert_sorted e (sort_by_index-perm d h)
sort_by_index-perm (Permᴰ.swap {a = a} {b = b} {l = l} e f) ((n, p), (q, h)) =
    insert_sorted_comm a b (sort_by_index l) n
    ∙ ap₂ (λ x y. insert_sorted x (insert_sorted y (sort_by_index l))) f e
sort_by_index-perm (Permᴰ.trans d e) h =
    sort_by_index-perm d h ∙ sort_by_index-perm e (IsDistinct-perm d h)

Apart-ordered :
    (m : Message) (lo hi : ℕ) (d : Dict Message)
    → IsOrdered lo hi d
    → m.index < lo
    → Apart m (values d)
Apart-ordered m lo hi [] h l = tt
Apart-ordered m lo hi ((k, n) ∷ d) (e, i, b, u, r) l =
    (omega arith, Apart-ordered m (n.index + 1) hi d r (omega arith))

IsDistinct-ordered : (lo hi : ℕ) (d : Dict Message) → IsOrdered lo hi d → IsDistinct (values d)
IsDistinct-ordered lo hi [] h = tt
IsDistinct-ordered lo hi ((k, m) ∷ d) (e, i, b, u, r) =
    (Apart-ordered m (m.index + 1) hi d r (omega arith), IsDistinct-ordered (m.index + 1) hi d r)

-- A message below all others goes to the front.
insert_sorted_front :
    (m : Message) (lo hi : ℕ) (d : Dict Message)
    → IsOrdered lo hi d
    → m.index < lo
    → insert_sorted m (values d) ≡ m ∷ values d
unfolding insert_sorted
insert_sorted_front m lo hi [] h l = refl
insert_sorted_front m lo hi ((k, n) ∷ d) (e, i, b, u, r) l = ground arith

pub sort_by_index-ordered :
    (lo hi : ℕ) (d : Dict Message) → IsOrdered lo hi d → sort_by_index (values d) ≡ values d
unfolding sort_by_index
sort_by_index-ordered lo hi [] h = refl
sort_by_index-ordered lo hi ((k, m) ∷ d) (e, i, b, u, r) =
    ap (insert_sorted m) (sort_by_index-ordered (m.index + 1) hi d r)
    ∙ insert_sorted_front m (m.index + 1) hi d r (omega arith)

messages-set : IsSet (List Message)
messages-set = hlevel

-- In whatever order the map of a mailbox, its entries in order of their numbers, yields the messages,
-- the sort of `GetMessages` returns them in the order of these numbers.
pub sort_by_index-Perm :
    (lo hi : ℕ) (d : Dict Message) (ms : List Message)
    → IsOrdered lo hi d
    → Perm ms (values d)
    → sort_by_index ms ≡ values d
sort_by_index-Perm lo hi d ms h p = ∥∥₁_elim p (messages-set _ _) (λ q.
    sym (sort_by_index-perm (Permᴰ.symm q) (IsDistinct-ordered lo hi d h))
    ∙ sort_by_index-ordered lo hi d h)
