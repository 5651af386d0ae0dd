-- ===== src/Gate.antt =====
-- Who may open a connection: `TranscriptionServer._process_request` of stt_server/server.py.
use Prim.Native.String.{◌++◌ as str_append}
use pipecat_local_stt_server.Prelude.{
  ℕ, String, Bool, true, false, not, ◌&&◌, Option, none, some, ◌≡◌, refl, ◌==◌, str_eq, is_some,
  arith, if◌then◌else◌, false≢true, ap, subst, ◌↔◌, Bool-cases, inl, inr, ==→eq, ==-self,
}

-- what `peer_uid` does: a uid, `None`, or an exception
pub data PeerUid : Type 0 where
  uid : ℕ → PeerUid
  unresolved : PeerUid
  lookup_fails : PeerUid

-- `connection.transport`, its socket, and whether that is of the family `AF_UNIX`
pub data Peer : Type 0 where
  no_transport : Peer
  no_socket : Peer
  socket : Bool → PeerUid → Peer

pub record Request : Type 0 where
  pub origin : Option String
  pub authorization : Option String

pub record Config : Type 0 where
  pub socket_path : Option String
  pub reject_browser_origins : Bool
  pub auth_token : Option String

pub record Response : Type 0 where
  pub status : ℕ
  pub body : String

abbrev pub peer_not_permitted : Response
peer_not_permitted = record { status = 403; body = "peer not permitted\n" }

abbrev pub origin_not_permitted : Response
origin_not_permitted = record { status = 403; body = "origin not permitted\n" }

abbrev pub unauthorized : Response
unauthorized = record { status = 401; body = "unauthorized\n" }

-- a header or a setting that is there and not empty
abbrev pub given : Option String → Bool
given none = false
given (some t) = not (str_eq t "")

abbrev pub or_empty : Option String → String
or_empty none = ""
or_empty (some t) = t

abbrev pub is_owner : ℕ → PeerUid → Bool
is_owner euid (uid u) = u == euid
is_owner euid _ = false

-- the check of a peer on a Unix socket, `true` where it passes
unfoldable pub check_peer : ℕ → Peer → Bool
check_peer euid no_transport = false
check_peer euid no_socket = false
check_peer euid (socket is_unix peer_uid) = is_unix && is_owner euid peer_uid

unfoldable pub check_token : Option String → Option String → Bool
check_token token authorization =
    if given token
    then str_eq (or_empty authorization) (str_append "Bearer " (or_empty token))
    else true

-- `none` lets the connection in
unfoldable pub process_request : ℕ → Config → Peer → Request → Option Response
unfolding check_peer check_token
process_request euid config peer request =
    if is_some config.socket_path && not (check_peer euid peer)
    then some peer_not_permitted
    else if config.reject_browser_origins && given request.origin
    then some origin_not_permitted
    else if not (check_token config.auth_token request.authorization)
    then some unauthorized
    else none

-- What the operator asked of a connection.
pub record IsTrusted (euid : ℕ) (config : Config) (peer : Peer) (request : Request) : Type 0 where
  pub owner : is_some config.socket_path ≡ true → peer ≡ socket true (uid euid)
  pub no_browser : config.reject_browser_origins ≡ true → given request.origin ≡ false
  pub bearer :
      (token : String)
      → config.auth_token ≡ some token
      → str_eq token "" ≡ false
      → str_eq (or_empty request.authorization) (str_append "Bearer " token) ≡ true

owner_check : (euid : ℕ) (peer : Peer) → check_peer euid peer ≡ true → peer ≡ socket true (uid euid)
unfolding check_peer
owner_check euid no_transport h = absurd (false≢true h)
owner_check euid no_socket h = absurd (false≢true h)
owner_check euid (socket false p) h = absurd (false≢true h)
owner_check euid (socket true unresolved) h = absurd (false≢true h)
owner_check euid (socket true lookup_fails) h = absurd (false≢true h)
owner_check euid (socket true (uid u)) h = ap (λ v. socket true (uid v)) (==→eq u euid h)

owner_passes : (euid : ℕ) → check_peer euid (socket true (uid euid)) ≡ true
unfolding check_peer
owner_passes euid = ==-self euid

bearer_some :
    (token : String) (authorization : Option String)
    → check_token (some token) authorization ≡ true
    → str_eq token "" ≡ false
    → str_eq (or_empty authorization) (str_append "Bearer " token) ≡ true
unfolding check_token
bearer_some token authorization h filled = ground arith

bearer_check :
    (o authorization : Option String) (token : String)
    → check_token o authorization ≡ true
    → o ≡ some token
    → str_eq token "" ≡ false
    → str_eq (or_empty authorization) (str_append "Bearer " token) ≡ true
bearer_check o authorization token h e filled =
    bearer_some token authorization
      (subst (λ (p : Option String). check_token p authorization ≡ true) e h) filled

bearer_passes :
    (o authorization : Option String)
    → ((token : String)
        → o ≡ some token
        → str_eq token "" ≡ false
        → str_eq (or_empty authorization) (str_append "Bearer " token) ≡ true)
    → check_token o authorization ≡ true
unfolding check_token
bearer_passes none authorization h = refl
bearer_passes (some token) authorization h = elim (Bool-cases (str_eq token "")) [
  | inl blank ↦ rw blank refl
  | inr filled ↦ rw (filled, h token refl filled) refl
]

-- A connection is let in exactly when it is trusted: on a Unix socket its peer is resolved to be
-- the server's own user, no refused `Origin` is given, and with a token set the `Authorization`
-- header is that bearer.
pub admit_exact :
    (euid : ℕ) (config : Config) (peer : Peer) (request : Request)
    → (process_request euid config peer request ≡ none) ↔ IsTrusted euid config peer request
unfolding process_request
admit_exact euid config peer request = (asked, served)
  where
    asked : process_request euid config peer request ≡ none → IsTrusted euid config peer request
    asked h = record {
      owner = λ on_unix. owner_check euid peer (ground arith);
      no_browser = λ rejects. ground arith;
      bearer = λ token e filled.
          bearer_check config.auth_token request.authorization token (ground arith) e filled;
    }

    served : IsTrusted euid config peer request → process_request euid config peer request ≡ none
    served h =
        let passes : check_token config.auth_token request.authorization ≡ true =
          bearer_passes config.auth_token request.authorization h.bearer in
        let permitted : is_some config.socket_path && not (check_peer euid peer) ≡ false =
          elim (Bool-cases (is_some config.socket_path)) [
            | inl on_unix ↦ rw (on_unix, h.owner on_unix, owner_passes euid) refl
            | inr on_tcp ↦ rw on_tcp refl
          ] in
        elim (Bool-cases config.reject_browser_origins) [
          | inl rejects ↦ let no_origin = h.no_browser rejects in ground arith
          | inr accepts ↦ ground arith
        ]
