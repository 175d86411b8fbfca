-- ===== src/Routing/Account.antt =====
-- Capacity keys (src/providers/account.ts): a provider's name and an account's label in one text.
pub mod Keys
use project_baracks.Prelude.{
  ℕ, ◌≡◌, refl, ap, ◌⊎◌, inl, inr, ◌+◌, ◌≤◌, ◌==◌, Eq-ℕ, Eq-Text, Text, text, Bool, true, false,
  not, ◌&&◌, ◌||◌, Option, none, some, List, [], ◌∷◌, ◌++◌, all, any, length, leb, is_lower,
  is_digit, if◌then◌else◌,
}

pub data AccountError : Type 0 where
  invalid_label : Text → AccountError
  separator_in_part : (provider label : Text) → AccountError
  ambiguous_key : Text → AccountError
  unsafe_path : Text → AccountError
  default_has_no_parents : AccountError

pub data Result {ℓ} (A : Type ℓ) : Type ℓ where
  ok : A → Result A
  err : AccountError → Result A

infixl 5 ◌>>=◌
abbrev pub ◌>>=◌ {ℓ κ} : {A : Type ℓ} {B : Type κ} → Result A → (A → Result B) → Result B
ok a >>= f = f a
err e >>= f = err e

abbrev pub default_account_label : Text
default_account_label = text "default"

abbrev reserved_label : Text
reserved_label = text "accounts"

abbrev pub separator : ℕ
separator = b'#'

abbrev label_char : ℕ → Bool
label_char c = is_lower c || is_digit c || c == b'-'

-- `/^[a-z][a-z0-9-]{0,31}$/`
unfoldable pub label_matches : Text → Bool
label_matches [] = false
label_matches (c ∷ cs) = is_lower c && all label_char cs && leb (length cs) 31

unfoldable pub assert_account_label : Text → Result Text
assert_account_label label =
    if label == default_account_label
    then ok label
    else if not (label_matches label) || label == reserved_label
    then err (invalid_label label)
    else ok label

abbrev pub includes : ℕ → Text → Bool
includes c t = any (λ d. d == c) t

unfoldable pub capacity_key : Text → Text → Result Text
capacity_key provider label = do
  _ ← assert_account_label label
  if includes separator provider || includes separator label
      then err (separator_in_part provider label)
      else ok (if label == default_account_label then provider else provider ++ separator ∷ label)

pub record CapacityKey : Type 0 where
  pub provider_name : Text
  pub account_label : Text

-- `key.indexOf('#')` with the two slices around it; `none` is -1.
unfoldable pub split_at : ℕ → Text → Option (Text × Text)
split_at c [] = none
split_at c (d ∷ t) =
    let later = split_at c t in
    if d == c
    then some ([], t)
    else elim later [ none ↦ none | some (before, after) ↦ some (d ∷ before, after) ]

unfoldable pub parse_capacity_key : Text → Result CapacityKey
parse_capacity_key key = elim (split_at separator key) [
  | none ↦ ok (record { provider_name = key; account_label = default_account_label })
  | some (provider, rest) ↦ do
    label ← assert_account_label rest
    if includes separator label
        then err (ambiguous_key key)
        else ok (record { provider_name = provider; account_label = label })
]

-- `text.includes('..')`
abbrev has_dots : Text → Bool
has_dots (c ∷ (d ∷ t)) = (c == b'.' && d == b'.') || has_dots (d ∷ t)
has_dots (c ∷ []) = false
has_dots [] = false

abbrev starts_with_slash : Text → Bool
starts_with_slash [] = false
starts_with_slash (c ∷ t) = c == b'/'

unfoldable account_auth_store_relative_path : Text → Text → Result Text
account_auth_store_relative_path path label = do
  _ ← assert_account_label label
  if has_dots path || starts_with_slash path
      then err (unsafe_path path)
      else ok (
          if label == default_account_label
          then path
          else text "accounts/" ++ (label ++ b'/' ∷ path))

unfoldable provider_state_account_args : Text → Result (List Text)
provider_state_account_args label = do
  _ ← assert_account_label label
  ok (if label == default_account_label then [] else label ∷ [])

pub Result-cases {ℓ} :
    {A : Type ℓ} (r : Result A) → ((a : A) × (r ≡ ok a)) ⊎ ((e : AccountError) × (r ≡ err e))
Result-cases (ok a) = inl (a, refl)
Result-cases (err e) = inr (e, refl)

pub ok-injective {ℓ} : {A : Type ℓ} {a b : A} → ok a ≡ ok b → a ≡ b
ok-injective {a} e = ap (λ r. elim r [ ok x ↦ x | err _ ↦ a ]) e
