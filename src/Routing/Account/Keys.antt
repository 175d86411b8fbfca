-- ===== src/Routing/Account/Keys.antt =====
-- Round trips of src/providers/account.ts.
use project_baracks.Prelude.{
  ℕ, ◌≡◌, refl, subst, ap, ◌∙◌, ◌==◌, Eq-ℕ, Eq-Text, Text, text_eq_iff, false, ◌||◌, none, some, [],
  ◌∷◌, ◌++◌, arith, Bool-cases, inl, inr,
}
use project_baracks.Routing.Account.{
  Result-cases, ok, default_account_label, separator, assert_account_label, includes, capacity_key,
  split_at, parse_capacity_key,
}

-- A name without the separator is read whole when no separator follows.
split_at-absent : (c : ℕ) (t : Text) → includes c t ≡ false → split_at c t ≡ none
unfolding split_at
split_at-absent c [] h = refl
split_at-absent c (d ∷ t) h = ground (arith, split_at-absent c t)

split_at-first :
    (c : ℕ) (t rest : Text) → includes c t ≡ false → split_at c (t ++ c ∷ rest) ≡ some (t, rest)
unfolding split_at
split_at-first c [] rest h = ground arith
split_at-first c (d ∷ t) rest h = ground (arith, split_at-first c t rest)

assert_account_label-same :
    (label same : Text) → assert_account_label label ≡ ok same → same ≡ label
unfolding assert_account_label
assert_account_label-same label same e = ground arith

-- A key that is made of a provider's name and an account's label is read back as these two.
pub parse-capacity_key :
    (provider label key : Text)
    → capacity_key provider label ≡ ok key
    → parse_capacity_key key ≡ ok (record { provider_name = provider; account_label = label })
unfolding capacity_key parse_capacity_key
parse-capacity_key provider label key e = elim (Result-cases (assert_account_label label)) [
  | inr (_, el) ↦ ground (arith, el)
  | inl (same, el) ↦ elim (Bool-cases (includes separator provider || includes separator label)) [
    | inl bad ↦ ground (arith, el, bad)
    | inr good ↦ elim (Bool-cases (label == default_account_label)) [
      | inl def ↦
          let apart : includes separator provider ≡ false = ground (arith, good) in
          let is_key : provider ≡ key = ground (arith, el, good, def) in
          let is_default : label ≡ default_account_label =
            (text_eq_iff label default_account_label).0 def in
          subst
            (λ k.
              parse_capacity_key k
              ≡ ok (record { provider_name = provider; account_label = label }))
            is_key
            (rw (parse_capacity_key, split_at-absent separator provider apart, is_default) refl)
      | inr named ↦
          let apart : includes separator provider ≡ false = ground (arith, good) in
          let single : includes separator label ≡ false = ground (arith, good) in
          let is_key : provider ++ separator ∷ label ≡ key = ground (arith, el, good, named) in
          let whole : assert_account_label label ≡ ok label =
            el ∙ ap ok (assert_account_label-same label same el) in
          rw
            (
              ← is_key,
              parse_capacity_key,
              split_at-first separator provider label apart,
              whole,
              single,
            )
            refl
    ]
  ]
]
