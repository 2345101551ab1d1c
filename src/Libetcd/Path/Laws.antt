-- ===== src/Libetcd/Path/Laws.antt =====
-- A directory's relative URI ends in a slash, begins with none, and is its own.
use libcluster.Prelude.{
  ℕ, ◌+◌, ◌≤◌, Bool, true, false, not, ◌&&◌, Option, none, some, [], ◌∷◌, ◌++◌, ◌≡◌, refl, ◌⊎◌, inl,
  inr, arith, length, length-append, ◌==◌, Bool-cases,
}
use libcluster.Prelude.Bytes.{Bytes}
use libcluster.Libetcd.Path.{skip_slashes, slash_pending, dir_path, dir_path_room}

abbrev pub last_byte : Bytes → Option ℕ
last_byte [] = none
last_byte (c ∷ []) = some c
last_byte (c ∷ d ∷ cs) = last_byte (d ∷ cs)

last_byte-concat : (s : Bytes) (c : ℕ) → last_byte (s ++ c ∷ []) ≡ some c
last_byte-concat [] c = refl
last_byte-concat (x ∷ []) c = refl
last_byte-concat (x ∷ y ∷ s) c = last_byte-concat (y ∷ s) c

slash_pending-concat :
    (lp : Bool) (s : Bytes) (c : ℕ)
    → slash_pending lp (s ++ c ∷ []) ≡ (not (slash_pending lp s) && c == b'/')
unfolding slash_pending
slash_pending-concat lp [] c = refl
slash_pending-concat lp (x ∷ s) c = slash_pending-concat (not lp && x == b'/') s c

-- A pending slash is the last byte.
slash_pending-last :
    (lp : Bool) (c : ℕ) (s : Bytes)
    → slash_pending lp (c ∷ s) ≡ true
    → last_byte (c ∷ s) ≡ some b'/'
unfolding slash_pending
slash_pending-last lp c [] h = ground arith
slash_pending-last lp c (d ∷ s) h = slash_pending-last (not lp && c == b'/') d s h

-- What a name starts with, once its slashes are skipped.
skipped :
    (s : Bytes)
    → (skip_slashes s ≡ [])
      ⊎ ((c : ℕ) × (cs : Bytes) × (skip_slashes s ≡ c ∷ cs) × ((c == b'/') ≡ false))
unfolding skip_slashes
skipped [] = inl refl
skipped (c ∷ cs) = elim (Bool-cases (c == b'/')) [
  | inl slash ↦ ground (arith, skipped cs)
  | inr other ↦ inr (c, cs, ground arith, other)
]

-- The URI ends in a slash, so that names below it are resolved inside the directory.
pub last_byte-dir_path : (name : Bytes) → last_byte (dir_path name) ≡ some b'/'
unfolding dir_path slash_pending
last_byte-dir_path name = elim (skipped name) [
  | inl e ↦ rw (e, dir_path, slash_pending) refl
  | inr (c, cs, e, other) ↦
      ground (arith, slash_pending-last false c cs, last_byte-concat (c ∷ cs) b'/')
]

skip_slashes_fixed : (c : ℕ) (cs : Bytes) → (c == b'/') ≡ false → skip_slashes (c ∷ cs) ≡ c ∷ cs
unfolding skip_slashes
skip_slashes_fixed c cs h = ground arith

-- Building the relative URI of a directory from a URI so built gives the same URI.
pub dir_path-dir_path : (name : Bytes) → dir_path (dir_path name) ≡ dir_path name
unfolding dir_path slash_pending skip_slashes
dir_path-dir_path name = elim (skipped name) [
  | inl e ↦ ground arith
  | inr (c, cs, e, other) ↦ ground (
    arith,
    slash_pending-concat false (c ∷ cs) b'/',
    skip_slashes_fixed c cs other,
    skip_slashes_fixed c (cs ++ b'/' ∷ []) other,
  )
]

-- The text and its NUL fit the buffer.
pub dir_path_fits : (name : Bytes) → length (dir_path name) + 1 ≤ dir_path_room name
unfolding dir_path slash_pending
dir_path_fits name = ground (arith, length-append (skip_slashes name) (b'/' ∷ []))
