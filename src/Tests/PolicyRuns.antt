-- ===== src/Tests/PolicyRuns.antt =====
-- Addresses and domains on concrete texts: pkg/policy.
use go_inbucket.Base.{
  ◌≡◌, ◌≢◌, ◌⊎◌, ◌≤◌, ◌<◌, refl, arith, Bool, true, false, ◌&&◌, [], ◌∷◌, ◌++◌, Bytes, txt, length,
  bytes_eq, ltb, leb, All,
}
use go_inbucket.GoText.{Unicode, split}
use go_inbucket.Policy.Address.{
  ok, err, is_special, is_name_byte, must_quote, parse_address, parse_mailbox_name,
}
use go_inbucket.Policy.Address.Names.{
  IsNameByte, parse_mailbox_name-All, parse_mailbox_name_idem, parse_mailbox_name_plus,
}
use go_inbucket.Policy.Address.Plain.{is_plain, parse_address-Outcome, parse_address_plain}
use go_inbucket.Policy.Domain.{validate_domain_part}
use go_inbucket.Policy.Domain.Labels.{
  decided, in_brackets, all_labels, strip_dot, validate_domain_part-labels,
}

-- A table that knows no text beyond ASCII.
abbrev ascii_only : Unicode
ascii_only = record { lower = λ s. s; upper = λ s. s; runes = λ s. s }

parse_address_plain_example :
    (parse_address (txt "a.b" ++ b'@' ∷ txt "x.org") ≡ ok (txt "a.b", txt "x.org"))
    × (parse_address (txt "a.b") ≡ ok (txt "a.b", []))
unfolding txt is_plain is_special
parse_address_plain_example =
    parse_address_plain (txt "a.b") (txt "x.org") refl (omega arith) (omega arith)

quoted : parse_address (txt "\"a b\"@x") ≡ ok (txt "a b", txt "x")
unfolding parse_address txt is_special
quoted = refl

-- A local part with a quoted space, and one that needs quotes.
outcome_of_quoted : All (λ c. c < 128) (txt "a b") × ((txt "x" ≡ []) ⊎ (length (txt "a b") ≤ 128))
outcome_of_quoted = parse_address-Outcome (txt "\"a b\"@x") quoted

unquoted : parse_address (txt "a b@x") ≡ err (must_quote b' ')
unfolding parse_address txt is_special
unquoted = refl

tagged : parse_mailbox_name ascii_only (txt "Fred+spam") ≡ ok (txt "fred")
unfolding parse_mailbox_name txt
tagged = refl

name_bytes_of_fred : All IsNameByte (txt "fred")
name_bytes_of_fred = parse_mailbox_name-All ascii_only (txt "Fred+spam") tagged

fred_ne : txt "fred" ≢ []
unfolding txt
fred_ne e = cc

name_of_fred : parse_mailbox_name ascii_only (txt "fred") ≡ ok (txt "fred")
name_of_fred = parse_mailbox_name_idem ascii_only (txt "Fred+spam") tagged fred_ne

tag-All : All (λ c. is_name_byte c ≡ true) (txt "tag")
unfolding txt is_name_byte
tag-All = (refl, (refl, (refl, tt)))

name_of_plus : parse_mailbox_name ascii_only (b'+' ∷ txt "tag") ≡ ok []
name_of_plus = parse_mailbox_name_plus ascii_only (txt "tag") tag-All

-- One text is an IP address here.
abbrev one_ip : Bytes → Bool
one_ip s = bytes_eq s (txt "::1")

validate_domain_part-labels_example : validate_domain_part one_ip (txt "[IPv6:::1]") ≡ (
    ltb 0 (length (txt "[IPv6:::1]"))
    && (leb (length (txt "[IPv6:::1]")) 255
        && decided one_ip
            (all_labels (split b'.' (strip_dot (txt "[IPv6:::1]"))))
            (in_brackets (txt "[IPv6:::1]"))))
validate_domain_part-labels_example = validate_domain_part-labels one_ip (txt "[IPv6:::1]")

accepted :
    (validate_domain_part one_ip (txt "a-b.org.") ≡ true)
    × (validate_domain_part one_ip (txt "[IPv6:::1]") ≡ true)
    × (validate_domain_part one_ip (txt "[::1]") ≡ true)
    × (validate_domain_part one_ip (txt "[::2]") ≡ false)
unfolding validate_domain_part txt bytes_eq
accepted = (refl, refl, refl, refl)
