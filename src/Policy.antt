-- ===== src/Policy.antt =====
-- pkg/policy/address.go: the parser of addresses, the names of mailboxes, and the domain policy;
-- recipient.go and origin.go. `net.ParseIP` is a parameter.
pub mod Address
pub mod Domain
use go_inbucket.Base.{
  ℕ, Bool, true, false, not, ◌&&◌, Option, none, some, List, [], ◌∷◌, ◌++◌, ltb, leb, ◌==◌,
  if◌then◌else◌, Bytes, bytes_eq,
}
use go_inbucket.Config.{Naming, unknown_naming, local_naming, full_naming, domain_naming, Root}
use go_inbucket.GoText.{Unicode, to_lower, to_runes, last_or}
use go_inbucket.Policy.Address.{
  AddressError, bad_domain, unknown_strategy, Result, ok, err, ◌>>=◌, parse_address,
  parse_mailbox_name,
}
use go_inbucket.Policy.Domain.{validate_domain_part}
use go_inbucket.StringUtil.{slice_contains, match_with_wildcards}

pub record Platform : Type 0 where
  pub unicode : Unicode
  pub parse_ip : Bytes → Bool

-- `ParseEmailAddress`.
unfoldable pub parse_email_address : Platform → Bytes → Result (Bytes × Bytes)
unfolding parse_address validate_domain_part
parse_email_address p address = do
  (local, domain) ← parse_address address
  if validate_domain_part p.parse_ip domain then ok (local, domain) else err bad_domain

is_bracketed : Bytes → Bool
is_bracketed [] = false
is_bracketed (c ∷ s) = c == b'[' && last_or c s == b']'

unfoldable pub extract_domain_mailbox : Platform → Bytes → Result Bytes
unfolding is_bracketed parse_address parse_mailbox_name validate_domain_part
extract_domain_mailbox p address = do
  (local, domain) ← if is_bracketed address then ok ([], address) else parse_address address
  name ← if bytes_eq local [] then ok [] else parse_mailbox_name p.unicode local
  let key = if bytes_eq domain [] then name else domain
  if validate_domain_part p.parse_ip key then ok key else err bad_domain

-- The end of `ExtractMailbox`, on the mailbox name and the domain.
mailbox_named : Platform → Naming → Bytes → Bytes → Result Bytes
mailbox_named p local_naming name domain = ok name
mailbox_named p full_naming name domain =
    if bytes_eq domain []
    then ok name
    else if validate_domain_part p.parse_ip domain
    then ok (name ++ b'@' ∷ domain)
    else err bad_domain
mailbox_named p _ name domain = err unknown_strategy

parsed_mailbox : Platform → Naming → Bytes → Result Bytes
unfolding mailbox_named
parsed_mailbox p naming address = do
  (local, domain) ← parse_address address
  name ← parse_mailbox_name p.unicode local
  mailbox_named p naming name domain

-- The first test of `ExtractMailbox`.
extract_for : Platform → Naming → Bytes → Result Bytes
unfolding extract_domain_mailbox parsed_mailbox
extract_for p domain_naming address = extract_domain_mailbox p address
extract_for p naming address = parsed_mailbox p naming address

unfoldable pub extract_mailbox : Platform → Root → Bytes → Result Bytes
unfolding extract_for
extract_mailbox p c address = extract_for p c.mailbox_naming address

pub record Recipient : Type 0 where
  pub address : Bytes
  pub local_part : Bytes
  pub domain : Bytes
  pub mailbox : Bytes

pub record Origin : Type 0 where
  pub address : Bytes
  pub local_part : Bytes
  pub domain : Bytes

unfoldable pub new_recipient : Platform → Root → Bytes → Result Recipient
unfolding parse_email_address extract_mailbox
new_recipient p c address = do
  (local, domain) ← parse_email_address p address
  mailbox ← extract_mailbox p c address
  ok (record { address = address; local_part = local; domain = domain; mailbox = mailbox })

unfoldable pub parse_origin : Platform → Bytes → Result Origin
unfolding parse_email_address
parse_origin p [] = ok (record { address = []; local_part = []; domain = [] })
parse_origin p (c ∷ s) = do
  (local, domain) ← parse_email_address p (c ∷ s)
  ok (record { address = c ∷ s; local_part = local; domain = domain })

-- The two tests of `ShouldAcceptDomain` and of `ShouldStoreDomain`.
abbrev by_lists : Bool → List Bytes → List Bytes → Bytes → Bool
by_lists default exceptions inclusions domain =
    if default && not (slice_contains exceptions domain)
    then true
    else not default && slice_contains inclusions domain

unfoldable pub should_accept_domain : Unicode → Root → Bytes → Bool
unfolding to_lower slice_contains
should_accept_domain u c domain =
    by_lists c.smtp.default_accept c.smtp.reject_domains c.smtp.accept_domains (to_lower u domain)

unfoldable pub should_store_domain : Unicode → Root → Bytes → Bool
unfolding to_lower slice_contains
should_store_domain u c domain =
    by_lists c.smtp.default_store c.smtp.discard_domains c.smtp.store_domains (to_lower u domain)

-- The loop of `ShouldAcceptOriginDomain`, on the domain in lower case.
unfoldable pub none_matches : Unicode → List Bytes → Bytes → Bool
unfolding match_with_wildcards to_runes
none_matches u [] domain = true
none_matches u (d ∷ patterns) domain =
    let rest = none_matches u patterns domain in
    if match_with_wildcards (to_runes u d) (to_runes u domain) then false else rest

unfoldable pub should_accept_origin_domain : Unicode → Root → Bytes → Bool
unfolding none_matches to_lower
should_accept_origin_domain u c domain =
    none_matches u c.smtp.reject_origin_domains (to_lower u domain)
