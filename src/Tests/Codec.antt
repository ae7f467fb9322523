-- ===== src/Tests/Codec.antt =====
-- A concrete form for the index file of a mailbox, in which every list of entries can be read back.
use go_inbucket.Base.{
  ℕ, zero, suc, ◌≡◌, refl, ap, ◌∙◌, Bool, true, false, Option, none, some, List, [], ◌∷◌, ◌++◌,
  Bytes, length, take, drop, ◌==◌, if◌then◌else◌,
}
use go_inbucket.Storage.File.{Entry}
use go_inbucket.StringUtil.{Address}

abbrev Reader {ℓ} : Type ℓ → Type ℓ
Reader A = Bytes → A × Bytes

abbrev Writer {ℓ} : Type ℓ → Type ℓ
Writer A = A → Bytes → Bytes

-- What was written is read, and the rest is left.
abbrev Fits {ℓ} : {A : Type ℓ} → Reader A → Writer A → Type ℓ
Fits {A = A} get put = (a : A) (rest : Bytes) → get (put a rest) ≡ (a, rest)

abbrev get_number : Reader ℕ
get_number [] = (0, [])
get_number (n ∷ s) = (n, s)

abbrev put_number : Writer ℕ
put_number n rest = n ∷ rest

-- One after the other.
module _ {A B : Type 0} where
  abbrev get_pair : Reader A → Reader B → Reader (A × B)
  get_pair get_a get_b s = (((get_a s).0, (get_b (get_a s).1).0), (get_b (get_a s).1).1)

  abbrev put_pair : Writer A → Writer B → Writer (A × B)
  put_pair put_a put_b ab rest = put_a ab.0 (put_b ab.1 rest)

  get_pair-Fits :
      (get_a : Reader A) (put_a : Writer A) (get_b : Reader B) (put_b : Writer B)
      → Fits get_a put_a
      → Fits get_b put_b
      → Fits (get_pair get_a get_b) (put_pair put_a put_b)
  get_pair-Fits get_a put_a get_b put_b fit_a fit_b ab rest =
      ap (λ (r : A × Bytes). ((r.0, (get_b r.1).0), (get_b r.1).1)) (fit_a ab.0 (put_b ab.1 rest))
      ∙ ap (λ (r : B × Bytes). ((ab.0, r.0), r.1)) (fit_b ab.1 rest)

  abbrev get_as : (A → B) → Reader A → Reader B
  get_as f get s = (f (get s).0, (get s).1)

  abbrev put_as : (B → A) → Writer A → Writer B
  put_as g put b rest = put (g b) rest

  get_as-Fits :
      (f : A → B) (g : B → A) (get : Reader A) (put : Writer A)
      → ((b : B) → f (g b) ≡ b)
      → Fits get put
      → Fits (get_as f get) (put_as g put)
  get_as-Fits f g get put back fit b rest =
      ap (λ (r : A × Bytes). (f r.0, r.1)) (fit (g b) rest) ∙ ap (λ x. (x, rest)) (back b)

abbrev get_text : Reader Bytes
get_text s = (take (get_number s).0 (get_number s).1, drop (get_number s).0 (get_number s).1)

abbrev put_text : Writer Bytes
put_text xs rest = length xs ∷ xs ++ rest

take-append : (xs ys : Bytes) → take (length xs) (xs ++ ys) ≡ xs
take-append [] ys = refl
take-append (x ∷ xs) ys = ap (◌∷◌ x) (take-append xs ys)

drop-append : (xs ys : Bytes) → drop (length xs) (xs ++ ys) ≡ ys
drop-append [] ys = refl
drop-append (x ∷ xs) ys = drop-append xs ys

get_text-Fits : Fits get_text put_text
get_text-Fits xs rest =
    ap (λ x. (x, drop (length xs) (xs ++ rest))) (take-append xs rest)
    ∙ ap (λ x. (xs, x)) (drop-append xs rest)

module _ {A : Type 0} where
  abbrev get_items : Reader A → ℕ → Reader (List A)
  get_items get zero s = ([], s)
  get_items get (suc n) s = let later = get_items get n (get s).1 in ((get s).0 ∷ later.0, later.1)

  abbrev put_items : Writer A → Writer (List A)
  put_items put [] rest = rest
  put_items put (a ∷ more) rest = put a (put_items put more rest)

  get_items-Fits :
      (get : Reader A) (put : Writer A)
      → Fits get put
      → (xs : List A) (rest : Bytes)
      → get_items get (length xs) (put_items put xs rest) ≡ (xs, rest)
  get_items-Fits get put fit [] rest = refl
  get_items-Fits get put fit (x ∷ xs) rest =
      ap
        (λ (r : A × Bytes).
          (r.0 ∷ (get_items get (length xs) r.1).0, (get_items get (length xs) r.1).1))
        (fit x (put_items put xs rest))
      ∙ ap (λ (r : List A × Bytes). (x ∷ r.0, r.1)) (get_items-Fits get put fit xs rest)

  abbrev get_list : Reader A → Reader (List A)
  get_list get s = get_items get (get_number s).0 (get_number s).1

  abbrev put_list : Writer A → Writer (List A)
  put_list put xs rest = length xs ∷ put_items put xs rest

abbrev address_of : Bytes × Bytes → Address
address_of p = record { name = p.0; address = p.1 }

abbrev get_address : Reader Address
get_address = get_as address_of (get_pair get_text get_text)

abbrev put_address : Writer Address
put_address = put_as (λ a. (a.name, a.address)) (put_pair put_text put_text)

get_address-Fits : Fits get_address put_address
get_address-Fits =
    get_as-Fits address_of (λ a. (a.name, a.address)) (get_pair get_text get_text)
      (put_pair put_text put_text) (λ b. refl)
      (get_pair-Fits get_text put_text get_text put_text get_text-Fits get_text-Fits)

abbrev first_of : List Address → Option Address
first_of [] = none
first_of (a ∷ more) = some a

abbrev list_of : Option Address → List Address
list_of none = []
list_of (some a) = a ∷ []

first_of-list_of : (o : Option Address) → first_of (list_of o) ≡ o
first_of-list_of none = refl
first_of-list_of (some a) = refl

abbrev bit_of : Bool → ℕ
bit_of b = if b then 1 else 0

bit_back : (b : Bool) → (bit_of b == 1) ≡ b
bit_back true = refl
bit_back false = refl

abbrev Parts : Type 0
Parts = (Bytes × (Bytes × ℕ)) × ((List Address × List Address) × (ℕ × ℕ))

abbrev parts_of : Entry → Parts
parts_of e = ((e.id, (e.subject, e.date)), ((list_of e.from, e.to), (e.size, bit_of e.seen)))

abbrev entry_of : Parts → Entry
entry_of p = record {
  id = p.0.0;
  date = p.0.1.1;
  from = first_of p.1.0.0;
  to = p.1.0.1;
  subject = p.0.1.0;
  size = p.1.1.0;
  seen = p.1.1.1 == 1;
}

entry_of-parts_of : (e : Entry) → entry_of (parts_of e) ≡ e
entry_of-parts_of e =
    ap (λ o. record e { from = o; seen = bit_of e.seen == 1 }) (first_of-list_of e.from)
    ∙ ap (λ b. record e { seen = b }) (bit_back e.seen)

abbrev get_addresses : Reader (List Address)
get_addresses = get_list get_address

abbrev put_addresses : Writer (List Address)
put_addresses = put_list put_address

get_addresses-Fits : Fits get_addresses put_addresses
get_addresses-Fits xs rest = get_items-Fits get_address put_address get_address-Fits xs rest

abbrev get_head : Reader (Bytes × (Bytes × ℕ))
get_head = get_pair get_text (get_pair get_text get_number)

abbrev put_head : Writer (Bytes × (Bytes × ℕ))
put_head = put_pair put_text (put_pair put_text put_number)

get_head-Fits : Fits get_head put_head
get_head-Fits =
    get_pair-Fits get_text put_text (get_pair get_text get_number) (put_pair put_text put_number)
      get_text-Fits
      (get_pair-Fits get_text put_text get_number put_number get_text-Fits (λ n rest. refl))

abbrev Tail : Type 0
Tail = (List Address × List Address) × (ℕ × ℕ)

abbrev get_tail : Reader Tail
get_tail = get_pair (get_pair get_addresses get_addresses) (get_pair get_number get_number)

abbrev put_tail : Writer Tail
put_tail = put_pair (put_pair put_addresses put_addresses) (put_pair put_number put_number)

get_tail-Fits : Fits get_tail put_tail
get_tail-Fits =
    get_pair-Fits (get_pair get_addresses get_addresses) (put_pair put_addresses put_addresses)
      (get_pair get_number get_number) (put_pair put_number put_number)
      (get_pair-Fits get_addresses put_addresses get_addresses put_addresses get_addresses-Fits
        get_addresses-Fits)
      (get_pair-Fits get_number put_number get_number put_number (λ n rest. refl) (λ n rest. refl))

abbrev get_entry : Reader Entry
get_entry = get_as entry_of (get_pair get_head get_tail)

abbrev put_entry : Writer Entry
put_entry = put_as parts_of (put_pair put_head put_tail)

get_entry-Fits : Fits get_entry put_entry
get_entry-Fits =
    get_as-Fits entry_of parts_of (get_pair get_head get_tail) (put_pair put_head put_tail)
      entry_of-parts_of
      (get_pair-Fits get_head put_head get_tail put_tail get_head-Fits get_tail-Fits)

abbrev pub encode_index : Bytes → List Entry → Bytes
encode_index name es = put_pair put_text (put_list put_entry) (name, es) []

abbrev pub decode_index : Bytes → Option (Bytes × List Entry)
decode_index text = some (get_pair get_text (get_list get_entry) text).0

pub decode_index-encode_index :
    (name : Bytes) (es : List Entry) → decode_index (encode_index name es) ≡ some (name, es)
decode_index-encode_index name es =
    ap (λ (r : (Bytes × List Entry) × Bytes). some r.0)
      (get_pair-Fits get_text put_text (get_list get_entry) (put_list put_entry) get_text-Fits
        (λ xs rest. get_items-Fits get_entry put_entry get_entry-Fits xs rest) (name, es) [])
