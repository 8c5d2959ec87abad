-- ===== src/Policy/Paths.antt =====
-- The gate on paths: resolving, the component-wise prefix check, and the path relative to the
-- handle of the granted root (src/policy.rs).
pub mod Confine
use lur.Base.{
  ℕ, Bool, true, false, not, ◌&&◌, ◌||◌, Option, none, some, List, [], ◌∷◌, ◌++◌, if◌then◌else◌,
}
use lur.Base.Bytes.{Bytes, bytes_eq, codes}

abbrev pub PathBuf : Type 0
PathBuf = List Bytes

abbrev pub root_dir : Bytes
root_dir = codes "/"

pub record FsRoot : Type 0 where
  pub path : PathBuf
  pub file : Option Bytes

pub data PolicyError : Type 0 where
  denied resolve : PathBuf → PolicyError

pub data Outcome {ℓ} (A : Type ℓ) : Type ℓ where
  ok : A → Outcome A
  err : PolicyError → Outcome A

-- `Path::strip_prefix`: what is left of a path after the components of another, if it starts with
-- them.
unfoldable pub strip_prefix : PathBuf → PathBuf → Option PathBuf
strip_prefix [] path = some path
strip_prefix (c ∷ cs) [] = none
strip_prefix (c ∷ cs) (d ∷ ds) =
    let rest = strip_prefix cs ds in if bytes_eq c d then rest else none

-- `Path::starts_with`
unfoldable pub starts_with : PathBuf → PathBuf → Bool
starts_with path base = elim (strip_prefix base path) [ none ↦ false | some r ↦ true ]

-- `FsRoot::relative`; `.` is the handle's own directory.
rel_or_dot : Option PathBuf → PathBuf
rel_or_dot none = codes "." ∷ []
rel_or_dot (some []) = codes "." ∷ []
rel_or_dot (some (c ∷ cs)) = c ∷ cs

unfoldable pub relative : FsRoot → PathBuf → PathBuf
unfolding rel_or_dot
relative root resolved = elim root.file [
  | some name ↦ name ∷ []
  | none ↦ rel_or_dot (strip_prefix root.path resolved)
]

unfoldable pub gate : List FsRoot → PathBuf → Outcome (PathBuf × FsRoot)
gate [] resolved = err (denied resolved)
gate (root ∷ roots) resolved =
    let rest = gate roots resolved in
    if starts_with resolved root.path then ok (resolved, root) else rest

-- `Path::parent`
unfoldable pub parent : PathBuf → Option PathBuf
parent [] = none
parent (c ∷ []) = if bytes_eq c root_dir then none else some []
parent (c ∷ d ∷ cs) = elim (parent (d ∷ cs)) [ none ↦ some (c ∷ []) | some p ↦ some (c ∷ p) ]

-- `Path::file_name`
unfoldable pub file_name : PathBuf → Option Bytes
file_name [] = none
file_name (c ∷ []) = if bytes_eq c root_dir || bytes_eq c (codes "..") then none else some c
file_name (c ∷ d ∷ cs) = file_name (d ∷ cs)

-- What `std::fs::canonicalize` says of every path.
abbrev pub Fs : Type 0
Fs = PathBuf → Option PathBuf

unfoldable pub resolve_existing : Fs → PathBuf → Outcome PathBuf
resolve_existing fs path = elim (fs path) [ none ↦ err (resolve path) | some p ↦ ok p ]

join_name : Fs → PathBuf → Option PathBuf → Option Bytes → Outcome PathBuf
join_name fs path (some (c ∷ cs)) (some name) = elim (fs (c ∷ cs)) [
  | none ↦ err (resolve (c ∷ cs))
  | some p ↦ ok (p ++ name ∷ [])
]
join_name fs path _ _ = err (resolve path)

unfoldable pub resolve_for_write : Fs → PathBuf → Outcome PathBuf
unfolding join_name
resolve_for_write fs path = elim (fs path) [
  | some p ↦ ok p
  | none ↦ join_name fs path (parent path) (file_name path)
]

-- `map(|(resolved, _)| resolved)`
path_of : Outcome (PathBuf × FsRoot) → Outcome PathBuf
path_of (ok (resolved, root)) = ok resolved
path_of (err e) = err e

-- The handle of a root with the path below it that is opened through it.
pub record Beneath : Type 0 where
  pub root : FsRoot
  pub rel : PathBuf

beneath_of : Outcome (PathBuf × FsRoot) → Outcome Beneath
beneath_of (ok (resolved, root)) = ok (record { root = root; rel = relative root resolved })
beneath_of (err e) = err e

pub gated : List FsRoot → Outcome PathBuf → Outcome (PathBuf × FsRoot)
gated roots (ok resolved) = gate roots resolved
gated roots (err e) = err e

-- `Policy::allows_read` and `allows_write`, with the roots that the policy grants.
unfoldable pub allows_read : List FsRoot → Fs → PathBuf → Outcome PathBuf
unfolding path_of gated
allows_read roots fs path = path_of (gated roots (resolve_existing fs path))

unfoldable pub allows_write : List FsRoot → Fs → PathBuf → Outcome PathBuf
unfolding path_of gated
allows_write roots fs path = path_of (gated roots (resolve_for_write fs path))

-- `Policy::open_read` and `open_write`
unfoldable pub open_read : List FsRoot → Fs → PathBuf → Outcome Beneath
unfolding beneath_of gated
open_read roots fs path = beneath_of (gated roots (resolve_existing fs path))

unfoldable pub open_write : List FsRoot → Fs → PathBuf → Outcome Beneath
unfolding beneath_of gated
open_write roots fs path = beneath_of (gated roots (resolve_for_write fs path))
