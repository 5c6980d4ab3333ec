-- ===== src/Users/Email.antt =====
-- The check of a new user's address, `isValidEmail` of api/internal/handlers/users.go. A length is a
-- number of ASCII characters.
use alluredeck.Prelude.{
  ℕ, Bool, true, false, not, ◌||◌, Option, none, some, [], Text, text_eq, codes, if◌then◌else◌, ltb,
  ◌==◌, length, any,
}
use alluredeck.Prelude.Texts.{cut, starts_with}
use mathlib.Core.List.{reverse}

abbrev pub is_blank : ℕ → Bool
is_blank c = c == 32 || (c == 9 || (c == 10 || c == 13))

-- The text behind the last dot, which is the text before the first one read backwards.
abbrev pub short_tld : Option (Text × Text) → Bool
short_tld none = true
short_tld (some (tld, rest)) = ltb (length tld) 2

unfoldable pub is_valid_domain : Text → Bool
is_valid_domain domain =
    if any (λ c. c == b'@') domain
    then false
    else (if not (any (λ c. c == b'.') domain)
        then false
        else (if starts_with domain (codes ".") || starts_with (reverse domain) (codes ".")
            then false
            else not (short_tld (cut b'.' (reverse domain)))))

unfoldable pub is_valid_split : Option (Text × Text) → Bool
unfolding is_valid_domain
is_valid_split none = false
is_valid_split (some (user, domain)) =
    if text_eq user [] || text_eq domain [] then false else is_valid_domain domain

unfoldable pub is_valid_email : Text → Bool
unfolding is_valid_split
is_valid_email email =
    if text_eq email [] || ltb 254 (length email)
    then false
    else (if any is_blank email then false else is_valid_split (cut b'@' email))
