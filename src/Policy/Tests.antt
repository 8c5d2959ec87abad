-- ===== src/Policy/Tests.antt =====
-- A policy with two roots, some addresses, and the theorems about the policy at them.
use lur.Base.{◌≡◌, ◌↔◌, refl, none, some, [], ◌∷◌, List, if◌then◌else◌, arith}
use lur.Base.Bytes.{Bytes, codes, bytes_eq}
use lur.Policy.Address.{Ipv4Addr, v4, v6, is_private_ip}
use lur.Policy.Deny.{IsOctets, embed, mapped, is_private_ip-embed}
use lur.Policy.Paths.{
  PathBuf, FsRoot, Beneath, Fs, ok, open_write, allows_read, gate, starts_with, strip_prefix,
  relative, resolve_for_write, parent, file_name,
}
use lur.Policy.Paths.Confine.{Granted, Opens, Target, open_write-Opens, allows_read_iff}

-- The metadata service of Oracle's cloud.
abbrev metadata : Ipv4Addr
metadata = record { a = 192; b = 0; c = 0; d = 192 }

metadata-IsOctets : IsOctets metadata
metadata-IsOctets = record { a = omega arith; b = omega arith; c = omega arith; d = omega arith }

is_private_ip-embed_example :
    is_private_ip (v6 (embed mapped metadata)) ≡ is_private_ip (v4 metadata)
is_private_ip-embed_example = is_private_ip-embed mapped metadata metadata-IsOctets

abbrev path_a : PathBuf
path_a = codes "/" ∷ codes "a" ∷ []

abbrev roots : List FsRoot
roots = record { path = path_a; file = none } ∷ []

-- A file system with the directory `/a` and the file `/a/f`.
abbrev files : Fs
files (r ∷ d ∷ []) = if bytes_eq d (codes "a") then some path_a else none
files (r ∷ d ∷ f ∷ []) =
    if bytes_eq f (codes "f") then some (codes "/" ∷ codes "a" ∷ codes "f" ∷ []) else none
files _ = none

abbrev file_f : PathBuf
file_f = codes "/" ∷ codes "a" ∷ codes "f" ∷ []

abbrev file_g : PathBuf
file_g = codes "/" ∷ codes "a" ∷ codes "g" ∷ []

abbrev handle : Bytes → Beneath
handle name = record { root = record { path = path_a; file = none }; rel = name ∷ [] }

open_write-Opens_example :
    (p : PathBuf) × Target files file_g p
    × Granted p (handle (codes "g")).root roots
    × Opens (handle (codes "g")) p
unfolding open_write resolve_for_write parent file_name gate starts_with strip_prefix relative
    bytes_eq
open_write-Opens_example = open_write-Opens roots files file_g (handle (codes "g")) refl

allows_read_iff_example :
    (allows_read roots files file_f ≡ ok file_f) ↔ ((root : FsRoot) × Granted file_f root roots)
unfolding bytes_eq
allows_read_iff_example = allows_read_iff roots files file_f file_f refl
