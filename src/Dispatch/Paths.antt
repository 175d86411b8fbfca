-- ===== src/Dispatch/Paths.antt =====
-- The declared paths of a task (src/supervisor/parallel-dispatch.ts): parsing, and the test of
-- overlap by the literal prefix of each glob.
use project_baracks.Prelude.{
  ℕ, ◌==◌, Eq-ℕ, Text, trim, Bool, true, false, ◌&&◌, ◌||◌, Option, none, some, List, [], ◌∷◌, all,
  any, if◌then◌else◌,
}
use project_baracks.Sdlc.Decisions.{has_text}

-- `read` is `JSON.parse` of an array of strings; `none` is any other text.
unfoldable pub parse_task_paths :
    (read : Text → Option (List Text)) → Option Text → Option (List Text)
parse_task_paths read none = none
parse_task_paths read (some []) = none
parse_task_paths read (some (c ∷ cs)) = elim (read (c ∷ cs)) [
  | none ↦ none
  | some [] ↦ none
  | some (path ∷ paths) ↦ if all has_text (path ∷ paths) then some (path ∷ paths) else none
]

-- `replace(/^\.\//, '')`
unfoldable pub strip_dot : Text → Text
strip_dot (a ∷ b ∷ cs) = if a == b'.' && b == b'/' then cs else a ∷ b ∷ cs
strip_dot cs = cs

abbrev pub normalized : Text → Text
normalized glob = strip_dot (trim glob)

abbrev is_wildcard : ℕ → Bool
is_wildcard c = c == b'*' || c == b'?' || c == b'[' || c == b'{'

unfoldable pub before_wildcard : Text → Text
before_wildcard [] = []
before_wildcard (c ∷ cs) = let rest = before_wildcard cs in if is_wildcard c then [] else c ∷ rest

unfoldable pub static_prefix : Text → Text
static_prefix glob = before_wildcard (normalized glob)

-- `text.startsWith(prefix)`
unfoldable pub starts_with : (text prefix : Text) → Bool
starts_with t [] = true
starts_with [] (p ∷ ps) = false
starts_with (c ∷ cs) (p ∷ ps) = c == p && starts_with cs ps

abbrev pub prefixes_meet : Text → Text → Bool
prefixes_meet left right =
    starts_with (static_prefix left) (static_prefix right)
    || starts_with (static_prefix right) (static_prefix left)

unfoldable pub paths_overlap : List Text → List Text → Bool
paths_overlap a b = any (λ left. any (prefixes_meet left) b) a
