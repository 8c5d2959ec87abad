-- ===== src/Policy.antt =====
-- The capability policy (src/policy.rs): its allowlists, the deny set of private addresses, and
-- the gate on paths. A path is the list of its components, the root directory being one. What
-- the file system says of a path is given by an argument.
pub mod Address
pub mod Paths
pub mod Deny
mod Tests
use lur.Base.{
  ℕ, Bool, true, false, not, ◌&&◌, ◌||◌, Option, none, some, List, [], ◌∷◌, ◌==◌, if◌then◌else◌,
}
use lur.Base.Bytes.{Bytes, bytes_eq, codes}
use lur.Policy.Address.{Ip, ip_eq}
use lur.Policy.Paths.{FsRoot, PathBuf}

pub record HostRule : Type 0 where
  pub host : Bytes
  pub ip : Option Ip
  pub port : Option ℕ

same_host : HostRule → Bytes → Option Ip → Bool
same_host r host ip = elim r.ip [
  | none ↦ bytes_eq r.host host
  | some a ↦ elim ip [ none ↦ bytes_eq r.host host | some b ↦ ip_eq a b ]
]

any_port : Option ℕ → ℕ → Bool
any_port none port = true
any_port (some p) port = p == port

-- `HostRule::matches`
unfoldable pub matches : HostRule → Bytes → Option Ip → ℕ → Bool
unfolding same_host any_port
matches r host ip port =
    (bytes_eq r.host (codes "*") || same_host r host ip) && any_port r.port port

pub record Policy : Type 0 where
  pub fs_read : List FsRoot
  pub fs_write : List FsRoot
  pub env_allow : List Bytes
  pub env_allow_all : Bool
  pub net_allow : List HostRule
  pub allow_private_net : Bool

-- `Policy::strict`
abbrev pub strict : Policy
strict = record {
  fs_read = [];
  fs_write = [];
  env_allow = [];
  env_allow_all = false;
  net_allow = [];
  allow_private_net = false;
}

abbrev pub with_env : List Bytes → Policy → Policy
with_env names p = record p { env_allow = names }

abbrev pub allow_all_env : Policy → Policy
allow_all_env p = record p { env_allow_all = true }

abbrev pub allow_private : Policy → Policy
allow_private p = record p { allow_private_net = true }

any_name : Bytes → List Bytes → Bool
any_name name [] = false
any_name name (n ∷ ns) = bytes_eq n name || any_name name ns

unfoldable pub allows_env : Policy → Bytes → Bool
unfolding any_name
allows_env p name = p.env_allow_all || any_name name p.env_allow

any_rule : List HostRule → Bytes → Option Ip → ℕ → Bool
any_rule [] host ip port = false
any_rule (r ∷ rs) host ip port = matches r host ip port || any_rule rs host ip port

-- `Policy::allows_net` on the host in lower case, without brackets, and its address if it is one.
unfoldable pub allows_net : Policy → Bytes → Option Ip → ℕ → Bool
unfolding any_rule
allows_net p host ip port = any_rule p.net_allow host ip port
