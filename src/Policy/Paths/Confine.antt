-- ===== src/Policy/Paths/Confine.antt =====
-- The gate on paths against the granted roots and their handles (src/policy.rs).
use lur.Base.{
  ◌≡◌, refl, inl, inr, ◌↔◌, Option, Option-cases, none, some, List, [], ◌∷◌, ◌++◌, arith,
}
use lur.Base.Bytes.{Bytes, bytes_eq_iff, bytes_eq_refl, codes}
use lur.Policy.Paths.{
  PathBuf, FsRoot, denied, Outcome, ok, err, strip_prefix, starts_with, relative, rel_or_dot, gate,
  gated, Fs, parent, file_name, resolve_existing, resolve_for_write, join_name, path_of, beneath_of,
  Beneath, open_write, open_read, allows_read,
}

strip_prefix-append :
    (base path rest : PathBuf) → strip_prefix base path ≡ some rest → path ≡ base ++ rest
unfolding strip_prefix
strip_prefix-append [] path rest h = ground arith
strip_prefix-append (c ∷ cs) [] rest h = absurd (ground arith)
strip_prefix-append (c ∷ cs) (d ∷ ds) rest h =
    ground (arith, strip_prefix-append cs ds rest, bytes_eq_iff c d)

append-strip_prefix : (base rest : PathBuf) → strip_prefix base (base ++ rest) ≡ some rest
unfolding strip_prefix
append-strip_prefix [] rest = refl
append-strip_prefix (c ∷ cs) rest = rw (bytes_eq_refl c) (append-strip_prefix cs rest)

-- A path goes on from one of the roots, component by component.
pub data Granted (path : PathBuf) (root : FsRoot) : List FsRoot → Type 0 where
  here :
      {roots : List FsRoot} (rest : PathBuf)
      → path ≡ root.path ++ rest
      → Granted path root (root ∷ roots)
  later :
      {other : FsRoot} {roots : List FsRoot}
      → Granted path root roots
      → Granted path root (other ∷ roots)

-- How the gate ends: with the path and a root that grants it, or with a refusal if none does.
data Gated (roots : List FsRoot) (path : PathBuf) (r : Outcome (PathBuf × FsRoot)) : Type 0 where
  grants : (root : FsRoot) → Granted path root roots → r ≡ ok (path, root) → Gated roots path r
  refuses :
      ((root : FsRoot) → ¬ Granted path root roots) → r ≡ err (denied path) → Gated roots path r

not-here :
    (r : FsRoot) (roots : List FsRoot) (path : PathBuf)
    → strip_prefix r.path path ≡ none
    → ((root : FsRoot) → ¬ Granted path root roots)
    → (root : FsRoot) → ¬ Granted path root (r ∷ roots)
not-here r roots path off none' root (here rest e) =
    ground (arith, append-strip_prefix root.path rest)
not-here r roots path off none' root (later g) = none' root g

gate-Gated : (roots : List FsRoot) (path : PathBuf) → Gated roots path (gate roots path)
unfolding gate starts_with
gate-Gated [] path = refuses (λ root g. elim g [ ]) refl
gate-Gated (r ∷ roots) path = elim (Option-cases (strip_prefix r.path path)) [
  | inr (rest, found) ↦
      rw (gate, starts_with, found)
        (grants r (here rest (strip_prefix-append r.path path rest found)) refl)
  | inl off ↦
      rw (gate, starts_with, off)
        (elim (gate-Gated roots path) [
          | grants root g e ↦ grants root (later g) e
          | refuses none' e ↦ refuses (not-here r roots path off none') e
        ])
]

-- What is opened through a handle for the resolved path: the root itself, a path below it, or, for
-- a root that is a file, that file by its name in its directory.
pub data Opens (b : Beneath) (path : PathBuf) : Type 0 where
  itself : b.root.file ≡ none → b.rel ≡ codes "." ∷ [] → path ≡ b.root.path → Opens b path
  below :
      (c : Bytes) (cs : PathBuf)
      → b.root.file ≡ none
      → b.rel ≡ c ∷ cs
      → path ≡ b.root.path ++ b.rel
      → Opens b path
  alone : (name : Bytes) → b.root.file ≡ some name → b.rel ≡ name ∷ [] → Opens b path

-- Where a write resolves to: to the file itself, or to a name in its directory if it is new.
pub data Target (fs : Fs) (path p : PathBuf) : Type 0 where
  existing : fs path ≡ some p → Target fs path p
  new :
      (dir real : PathBuf) (name : Bytes)
      → fs path ≡ none
      → parent path ≡ some dir
      → file_name path ≡ some name
      → fs dir ≡ some real
      → p ≡ real ++ name ∷ []
      → Target fs path p

Granted-append :
    (path : PathBuf) (root : FsRoot) (roots : List FsRoot)
    → Granted path root roots
    → (rest : PathBuf) × (path ≡ root.path ++ rest)
Granted-append path root [] g = elim g [ ]
Granted-append path root (r ∷ roots) (here rest e) = (rest, e)
Granted-append path root (r ∷ roots) (later g) = Granted-append path root roots g

append-nil : (p : PathBuf) → p ++ [] ≡ p
append-nil [] = refl
append-nil (c ∷ cs) = ground (arith, append-nil cs)

relative-Opens :
    (root : FsRoot) (path rest : PathBuf)
    → path ≡ root.path ++ rest
    → Opens (record { root = root; rel = relative root path }) path
unfolding relative rel_or_dot
relative-Opens root path rest e = elim (Option-cases root.file) [
  | inr (name, one) ↦ alone name one (rw (one, relative) refl)
  | inl dir ↦ opens rest e (rw e (append-strip_prefix root.path rest)) dir
]
  where
    opens :
        (rest : PathBuf)
        → path ≡ root.path ++ rest
        → strip_prefix root.path path ≡ some rest
        → root.file ≡ none
        → Opens (record { root = root; rel = relative root path }) path
    opens [] e s dir =
        itself dir (rw (relative, dir, s) refl) (ground (arith, append-nil root.path))
    opens (c ∷ cs) e s dir = below c cs dir (rw (relative, dir, s) refl) (rw (relative, dir, s) e)

ok-injective : {A : Type 0} (a b : A) → ◌≡◌ {A = Outcome A} (ok a) (ok b) → a ≡ b
ok-injective a b h = ground arith

Granted-Opens :
    (roots : List FsRoot) (p : PathBuf) (root : FsRoot) (b : Beneath)
    → Granted p root roots
    → record { root = root; rel = relative root p } ≡ b
    → Granted p b.root roots × Opens b p
Granted-Opens roots p root b g e =
    let (rest, path) = Granted-append p root roots g in
    rw (← e) (g, relative-Opens root p rest path)

gated-Opens :
    (roots : List FsRoot) (r : Outcome PathBuf) (b : Beneath)
    → beneath_of (gated roots r) ≡ ok b
    → (p : PathBuf) × (r ≡ ok p) × Granted p b.root roots × Opens b p
unfolding beneath_of gated
gated-Opens roots (err e) b h = absurd (ground arith)
gated-Opens roots (ok p) b h = elim (gate-Gated roots p) [
  | grants root g e ↦
      let (g', opens) = Granted-Opens roots p root b g (ok-injective _ _ (rw e at h)) in
      (p, refl, g', opens)
  | refuses none' e ↦ absurd (ground (arith, e, h))
]

join-Target :
    (fs : Fs) (path p : PathBuf) (o : Option PathBuf) (n : Option Bytes)
    → fs path ≡ none
    → parent path ≡ o
    → file_name path ≡ n
    → join_name fs path o n ≡ ok p
    → Target fs path p
unfolding join_name
join-Target fs path p none n absent up last h = absurd (ground arith)
join-Target fs path p (some []) n absent up last h = absurd (ground arith)
join-Target fs path p (some (c ∷ cs)) none absent up last h = absurd (ground arith)
join-Target fs path p (some (c ∷ cs)) (some name) absent up last h =
    elim (Option-cases (fs (c ∷ cs))) [
      | inl lost ↦ absurd (ground arith)
      | inr (real, there) ↦ new (c ∷ cs) real name absent up last there (ground arith)
    ]

resolve-Target : (fs : Fs) (path p : PathBuf) → resolve_for_write fs path ≡ ok p → Target fs path p
unfolding resolve_for_write
resolve-Target fs path p h = elim (Option-cases (fs path)) [
  | inr (q, there) ↦ existing (ground arith)
  | inl absent ↦
      join-Target fs path p (parent path) (file_name path) absent refl refl
        (rw (resolve_for_write, absent) at h)
]

-- A file that is opened for reading was resolved by the file system to a path that goes on from a
-- granted root, and is opened through the handle of that root at exactly that path, or, if the
-- root is a file, at its name.
pub open_read-Opens :
    (roots : List FsRoot) (fs : Fs) (path : PathBuf) (b : Beneath)
    → open_read roots fs path ≡ ok b
    → (p : PathBuf) × (fs path ≡ some p) × Granted p b.root roots × Opens b p
unfolding open_read resolve_existing
open_read-Opens roots fs path b h =
    let (p, resolved, granted, opens) = gated-Opens roots (resolve_existing fs path) b h in
    (p, ground arith, granted, opens)

-- A file that is opened for writing is an existing one, or a new name in an existing directory, at
-- a resolved path that goes on from a granted root, and is opened through the handle of that root
-- at exactly that path, or, if the root is a file, at its name.
pub open_write-Opens :
    (roots : List FsRoot) (fs : Fs) (path : PathBuf) (b : Beneath)
    → open_write roots fs path ≡ ok b
    → (p : PathBuf) × Target fs path p × Granted p b.root roots × Opens b p
unfolding open_write
open_write-Opens roots fs path b h =
    let (p, resolved, granted, opens) = gated-Opens roots (resolve_for_write fs path) b h in
    (p, resolve-Target fs path p resolved, granted, opens)

-- The gate is complete: a path that resolves is readable if and only if it goes on from one of the
-- granted roots, whatever comes before that root in the list.
pub allows_read_iff :
    (roots : List FsRoot) (fs : Fs) (path p : PathBuf)
    → fs path ≡ some p
    → (allows_read roots fs path ≡ ok p) ↔ ((root : FsRoot) × Granted p root roots)
unfolding allows_read resolve_existing gated path_of
allows_read_iff roots fs path p found = elim (gate-Gated roots p) [
  | grants root g e ↦
      (λ h. (root, g), λ h. rw (allows_read, resolve_existing, found, gated, e) refl)
  | refuses none' e ↦
      (λ h. absurd (ground (arith, e, found, h)), λ (root, g). absurd (none' root g))
]
