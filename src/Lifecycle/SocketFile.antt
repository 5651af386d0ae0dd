-- ===== src/Lifecycle/SocketFile.antt =====
-- The server's socket file: `_record_bound_socket` and `_unlink_own_socket` of stt_server/server.py.
use pipecat_local_stt_server.Prelude.{
  ℕ, Bool, false, ◌&&◌, ◌==◌, Option, none, some, List, [], ◌∷◌, ◌≡◌, refl, arith, if◌then◌else◌,
  ap, ◌∙◌,
}

-- st_dev and st_ino
pub record Inode : Type 0 where
  pub device : ℕ
  pub inode : ℕ

-- What `os.stat` and `os.lstat` say of the path, which is taken for no symbolic link; `none` is an OSError,
-- as for a missing file.
pub record Node : Type 0 where
  pub is_socket : Bool
  pub id : Inode

-- the path, with what is there, and `_bound_socket_id`
pub record Socket : Type 0 where
  pub at : Option Node
  pub bound : Option Inode

abbrev pub same_inode : Inode → Inode → Bool
same_inode a b = a.device == b.device && a.inode == b.inode

abbrev pub recorded : Option Node → Option Inode → Option Inode
recorded none before = before
recorded (some node) before = if node.is_socket then some node.id else before

-- `has_path` tells whether the configuration has a socket path
unfoldable pub record_bound_socket : Bool → Socket → Socket
record_bound_socket has_path s =
    if has_path then record { at = s.at; bound = recorded s.at s.bound } else s

-- whether what is there is the socket that was bound
abbrev pub is_own : Option Inode → Option Node → Bool
is_own none at = false
is_own (some bound) none = false
is_own (some bound) (some node) = node.is_socket && same_inode node.id bound

-- `unlinks`: whether `os.unlink` does not raise
unfoldable pub unlink_own_socket : Bool → Bool → Socket → Socket
unlink_own_socket has_path unlinks s =
    if has_path && is_own s.bound s.at && unlinks then record { at = none; bound = s.bound } else s

-- What another process may do, at any time: put something at the path, or take it away.
unfoldable pub others : List (Option Node) → Socket → Socket
others [] s = s
others (at ∷ later) s = others later (record { at = at; bound = s.bound })

others-bound : (changes : List (Option Node)) (s : Socket) → (others changes s).bound ≡ s.bound
unfolding others
others-bound [] s = refl
others-bound (at ∷ later) s = others-bound later (record { at = at; bound = s.bound })

no_unlink : (a own b : Bool) → own ≡ false → (a && own && b) ≡ false
no_unlink a own b h = ground (arith, h)

-- Whatever other processes do at the path after the server bound its socket, what is there is left alone
-- unless it is a socket with the inode that the server bound.
pub foreign_file_kept :
    (has_path unlinks : Bool) (changes : List (Option Node)) (s : Socket)
    → is_own
        (record_bound_socket has_path s).bound
        (others changes (record_bound_socket has_path s)).at
      ≡ false
    → (unlink_own_socket has_path unlinks (others changes (record_bound_socket has_path s))).at
      ≡ (others changes (record_bound_socket has_path s)).at
unfolding unlink_own_socket
foreign_file_kept has_path unlinks changes s foreign =
    let after = others changes (record_bound_socket has_path s) in
    let same = others-bound changes (record_bound_socket has_path s) in
    let not_own = ap (λ (bound : Option Inode). is_own bound after.at) same ∙ foreign in
    rw (no_unlink has_path (is_own after.bound after.at) unlinks not_own) refl
