-- ===== src/Suggestions/Fingerprint.antt =====
-- The fingerprint of a suggestion's scope (src/domain/task-service.ts, scopeFingerprint). Unicode's
-- table of lower-case letters and the sha256 digest are arguments.
use project_baracks.Prelude.{
  ℕ, Text, trim, is_lower, is_digit, is_space, Bool, true, false, ◌||◌, [], ◌∷◌, ◌++◌, map,
  if◌then◌else◌,
}

pub record Hashing : Type 0 where
  pub lower : Text → Text
  pub digest : Text → Text

-- `/[^a-z0-9\s]/g` by a space.
abbrev blanked : ℕ → ℕ
blanked c = if is_lower c || is_digit c || is_space c then c else 32

-- `/\s+/g` by one space; `seen` tells that the run of spaces has its space already.
unfoldable pub squeeze : (seen : Bool) → Text → Text
squeeze seen [] = []
squeeze seen (c ∷ cs) = elim (is_space c) [
  | false ↦ c ∷ squeeze false cs
  | true ↦ elim seen [ true ↦ squeeze true cs | false ↦ 32 ∷ squeeze true cs ]
]

unfoldable pub normalized : (lower : Text → Text) → (title description : Text) → Text
normalized lower title description =
    trim (squeeze false (map blanked (lower (title ++ 10 ∷ description))))

unfoldable pub scope_fingerprint : Hashing → (title description : Text) → Text
scope_fingerprint h title description = h.digest (normalized h.lower title description)
