-- ===== src/Msghub.antt =====
-- pkg/msghub/hub.go. The operations run one after another, so each is a step. The ring is the list of
-- its entries from the one to write next; an empty list is a nil ring.
pub mod History
pub mod Deletion
use go_inbucket.Base.{
  ℕ, Bool, true, false, not, ◌&&◌, Option, none, some, List, [], ◌∷◌, ◌++◌, ◌==◌, map, replicate,
  keep, if◌then◌else◌, Bytes, bytes_eq,
}
use go_inbucket.Storage.Message.{Metadata}

-- What a listener is told.
pub data Told : Type 0 where
  received : Metadata → Told
  deleted : Bytes → Bytes → Told

-- Listeners go by numbers; `told` is all that they were told, in order.
pub record Hub : Type 0 where
  pub history : List (Option Metadata)
  pub listeners : List ℕ
  pub told : List (ℕ × Told)

unfoldable pub new_hub : ℕ → Hub
new_hub n = record { history = replicate n none; listeners = []; told = [] }

-- The entries of the ring that are not nil.
abbrev pub entries : List (Option Metadata) → List Metadata
entries [] = []
entries (none ∷ h) = entries h
entries (some m ∷ h) = m ∷ entries h

-- The loop over the listeners; those that return an error are removed.
abbrev pub relay : (ℕ → Told → Bool) → Told → Hub → Hub
relay accepts t h = record h {
  listeners = keep (λ l. accepts l t) h.listeners;
  told = h.told ++ map (λ l. (l, t)) h.listeners;
}

unfoldable pub dispatch : (ℕ → Told → Bool) → Metadata → Hub → Hub
dispatch accepts m h = elim h.history [
  | [] ↦ h
  | v ∷ rest ↦ relay accepts (received m) (record h { history = rest ++ some m ∷ [] })
]

abbrev pub is_entry : Bytes → Bytes → Option Metadata → Bool
is_entry mailbox id none = false
is_entry mailbox id (some m) = bytes_eq mailbox m.mailbox && bytes_eq id m.id

-- The first match is set to nil; `none` if there is none.
unfoldable pub clear_first :
    Bytes → Bytes → List (Option Metadata) → Option (List (Option Metadata))
clear_first mailbox id [] = none
clear_first mailbox id (v ∷ h) =
    let later : Option (List (Option Metadata)) = elim (clear_first mailbox id h) [
      | none ↦ none
      | some h' ↦ some (v ∷ h')
    ] in
    if is_entry mailbox id v then some (none ∷ h) else later

-- The search begins behind the entry to write next, which comes last.
unfoldable pub clear_entry : Bytes → Bytes → List (Option Metadata) → List (Option Metadata)
unfolding clear_first
clear_entry mailbox id [] = []
clear_entry mailbox id (v ∷ h) = elim (clear_first mailbox id h) [
  | some h' ↦ v ∷ h'
  | none ↦ (if is_entry mailbox id v then none else v) ∷ h
]

unfoldable pub delete : (ℕ → Told → Bool) → Bytes → Bytes → Hub → Hub
unfolding clear_entry
delete accepts mailbox id h = elim h.history [
  | [] ↦ h
  | v ∷ rest ↦
      relay accepts (deleted mailbox id) (record h { history = clear_entry mailbox id h.history })
]

abbrev without : ℕ → List ℕ → List ℕ
without l = keep (λ k. not (k == l))

-- The history is played back, whatever the listener answers, and then it is registered.
unfoldable pub add_listener : ℕ → Hub → Hub
add_listener l h = record h {
  listeners = without l h.listeners ++ l ∷ [];
  told = h.told ++ map (λ m. (l, received m)) (entries h.history);
}

unfoldable pub remove_listener : ℕ → Hub → Hub
remove_listener l h = record h { listeners = without l h.listeners }

unfoldable pub dispatch_all : (ℕ → Told → Bool) → List Metadata → Hub → Hub
unfolding dispatch
dispatch_all accepts [] h = h
dispatch_all accepts (m ∷ ms) h = dispatch_all accepts ms (dispatch accepts m h)
