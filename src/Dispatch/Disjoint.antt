-- ===== src/Dispatch/Disjoint.antt =====
-- That the tasks of a batch work apart (src/supervisor/parallel-dispatch.ts, selectParallelBatch,
-- pathsOverlap). Matching a file against a glob is node:path's.
use project_baracks.Prelude.{
  ◌≡◌, refl, inl, inr, arith, Eq-ℕ, Text, Bool, true, false, List, [], ◌∷◌, ◌++◌, any, all, All,
  All-snoc, Mem, any-Mem, Mem-any, Bool-cases,
}
use project_baracks.Lifecycle.Machine.{Eq-TaskStatus}
use project_baracks.Dispatch.Paths.{
  normalized, before_wildcard, static_prefix, starts_with, prefixes_meet, paths_overlap,
}
use project_baracks.Dispatch.Batch.{ParallelTask, meets}

-- `matchesGlob`, and the globs whose literal prefix every match begins with: those without groups,
-- escapes or segments that are normalised away.
pub record GlobMatcher : Type 0 where
  pub matches : (file glob : Text) → Bool
  pub is_plain : Text → Bool
  pub prefix_of_match :
      (file glob : Text)
      → is_plain glob ≡ true
      → matches file glob ≡ true
      → starts_with file (before_wildcard glob) ≡ true

-- The file belongs to the declared paths, as the merge queue tests it.
abbrev pub covers : GlobMatcher → Text → List Text → Bool
covers m file paths = any (λ glob. m.matches file (normalized glob)) paths

abbrev pub all_plain : GlobMatcher → List Text → Bool
all_plain m paths = all (λ glob. m.is_plain (normalized glob)) paths

prefixes_of_one :
    (t p q : Text)
    → starts_with t p ≡ true
    → starts_with t q ≡ true
    → starts_with p q ≡ false
    → starts_with q p ≡ true
unfolding starts_with
prefixes_of_one t p [] h k apart = absurd (ground arith)
prefixes_of_one t [] (b ∷ q) h k apart = refl
prefixes_of_one [] (a ∷ p) (b ∷ q) h k apart = absurd (ground arith)
prefixes_of_one (c ∷ t) (a ∷ p) (b ∷ q) h k apart = ground (arith, prefixes_of_one t p q)

all-Mem :
    {A : Type 0} (p : A → Bool) (x : A) (xs : List A) → all p xs ≡ true → Mem x xs → p x ≡ true
all-Mem p x [] h inside = absurd inside
all-Mem p x (y ∷ ys) h inside = ground (arith, all-Mem p x ys)

prefixes_meet-of_match :
    (m : GlobMatcher) (file left right : Text)
    → m.is_plain (normalized left) ≡ true
    → m.is_plain (normalized right) ≡ true
    → m.matches file (normalized left) ≡ true
    → m.matches file (normalized right) ≡ true
    → prefixes_meet left right ≡ true
unfolding static_prefix
prefixes_meet-of_match m file left right l_plain r_plain l r =
    let p : starts_with file (static_prefix left) ≡ true =
      m.prefix_of_match file (normalized left) l_plain l in
    let q : starts_with file (static_prefix right) ≡ true =
      m.prefix_of_match file (normalized right) r_plain r in
    elim (Bool-cases (starts_with (static_prefix left) (static_prefix right))) [
      | inl e ↦ ground (arith, e)
      | inr e ↦
          let back : starts_with (static_prefix right) (static_prefix left) ≡ true =
            prefixes_of_one file (static_prefix left) (static_prefix right) p q e in
          ground (arith, e)
    ]

-- A file that two lists of plain globs cover makes them overlap.
pub covers-overlap :
    (m : GlobMatcher) (file : Text) (a b : List Text)
    → all_plain m a ≡ true
    → all_plain m b ≡ true
    → covers m file a ≡ true
    → covers m file b ≡ true
    → paths_overlap a b ≡ true
unfolding paths_overlap
covers-overlap m file a b a_plain b_plain in_a in_b =
    let (left, left_in, l) = any-Mem (λ g. m.matches file (normalized g)) a in_a in
    let (right, right_in, r) = any-Mem (λ g. m.matches file (normalized g)) b in_b in
    Mem-any (λ g. any (prefixes_meet g) b) left a left_in
      (Mem-any (prefixes_meet left) right b right_in (
        prefixes_meet-of_match m file left right
          (all-Mem (λ g. m.is_plain (normalized g)) left a a_plain left_in)
          (all-Mem (λ g. m.is_plain (normalized g)) right b b_plain right_in) l r))

-- The paths of no two tasks of a batch overlap.
unfoldable pub IsApart : List ParallelTask → Type 0
IsApart [] = Unit
IsApart (t ∷ ts) = All (λ u. paths_overlap t.paths u.paths ≡ false) ts × IsApart ts

pub snoc-IsApart :
    (ts : List ParallelTask) (new : ParallelTask)
    → any (meets new.paths) ts ≡ false
    → IsApart ts
    → IsApart (ts ++ new ∷ [])
unfolding IsApart
snoc-IsApart [] new clear h = (tt, tt)
snoc-IsApart (t ∷ ts) new clear h = (
  All-snoc (λ u. paths_overlap t.paths u.paths ≡ false) ts new h.0 (ground arith),
  snoc-IsApart ts new (ground arith) h.1,
)
