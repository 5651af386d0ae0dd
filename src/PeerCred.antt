-- ===== src/PeerCred.antt =====
-- Which user a connecting peer is: stt_server/_peercred.py.
use pipecat_local_stt_server.Prelude.{
  ℕ, ◌+◌, ◌*◌, ◌/◌, ◌%◌, ◌<◌, true, false, Option, none, some, List, [], ◌∷◌, ◌++◌, ◌≡◌, refl, ap,
  arith, ◌==◌, if◌then◌else◌,
}
use pipecat_local_stt_server.Gate.{PeerUid, uid, unresolved, socket, check_peer}

pub data Platform : Type 0 where
  linux darwin other_platform : Platform

-- What the system calls answer: `getsockopt` (`none` where it raises), and the status of `getpeereid`
-- with the uid that it wrote (`none` where the binding raises).
pub record Answers : Type 0 where
  pub ucred : Option (List ℕ)
  pub getpeereid : Option (ℕ × ℕ)

-- an unsigned int of four bytes, the lowest first
abbrev pub u32 : ℕ → ℕ → ℕ → ℕ → ℕ
u32 a b c d = a + 256 * b + 65536 * c + 16777216 * d

-- struct.unpack("3I", buf), which raises unless it is given twelve bytes
unfoldable pub unpack : List ℕ → Option (ℕ × ℕ × ℕ)
unpack (a ∷ b ∷ c ∷ d ∷ e ∷ f ∷ g ∷ h ∷ i ∷ j ∷ k ∷ l ∷ []) =
    some (u32 a b c d, u32 e f g h, u32 i j k l)
unpack _ = none

-- `_peer_uid_linux`, `none` where it raises
abbrev pub uid_of : Option (ℕ × ℕ × ℕ) → Option PeerUid
uid_of none = none
uid_of (some (_, u, _)) = some (uid u)

abbrev pub peer_uid_linux : Option (List ℕ) → Option PeerUid
peer_uid_linux none = none
peer_uid_linux (some buf) = uid_of (unpack buf)

-- `_peer_uid_darwin`, `none` where it raises
abbrev pub peer_uid_darwin : Option (ℕ × ℕ) → Option PeerUid
peer_uid_darwin none = none
peer_uid_darwin (some (rc, u)) = if rc == 0 then some (uid u) else some unresolved

abbrev pub or_unresolved : Option PeerUid → PeerUid
or_unresolved none = unresolved
or_unresolved (some p) = p

unfoldable pub peer_uid : Platform → Answers → PeerUid
unfolding unpack
peer_uid linux answers = or_unresolved (peer_uid_linux answers.ucred)
peer_uid darwin answers = or_unresolved (peer_uid_darwin answers.getpeereid)
peer_uid other_platform answers = unresolved

-- the four bytes of a number below 2 ^ 32 in memory, on a machine that stores the lowest first
abbrev pub word : ℕ → List ℕ
word n = n % 256 ∷ n / 256 % 256 ∷ n / 65536 % 256 ∷ n / 16777216 % 256 ∷ []

-- `struct ucred`, as the kernel fills it
abbrev pub ucred_of : ℕ → ℕ → ℕ → List ℕ
ucred_of pid u gid = word pid ++ word u ++ word gid

u32-word :
    (n : ℕ)
    → n < 4294967296
    → u32 (n % 256) (n / 256 % 256) (n / 65536 % 256) (n / 16777216 % 256) ≡ n
u32-word n small = omega (arith, small)

-- On Linux, for every uid of 32 bits, the ones of 2 ^ 31 and more included: if the kernel fills in the
-- peer's credentials, then the uid that is resolved is the peer's, and a Unix socket passes the check
-- just when it is the server's own. If `getsockopt` fails, no peer passes.
pub ucred_decides :
    (euid pid u gid : ℕ) (g : Option (ℕ × ℕ))
    → u < 4294967296
    → (peer_uid linux (record { ucred = some (ucred_of pid u gid); getpeereid = g }) ≡ uid u)
      × (check_peer euid (
            socket true
              (peer_uid linux (record { ucred = some (ucred_of pid u gid); getpeereid = g })))
          ≡ (u == euid))
      × (check_peer euid (socket true (peer_uid linux (record { ucred = none; getpeereid = g })))
          ≡ false)
unfolding peer_uid unpack check_peer
ucred_decides euid pid u gid g small =
    let same = u32-word u small in (ap uid same, ap (λ n. n == euid) same, refl)
