-- ===== src/Config.antt =====
-- Which endpoint a server may be given: `ServerConfig.__post_init__` of stt_server/server.py, with
-- the loopback hosts of stt_server/auth.py.
use pipecat_local_stt_server.Prelude.{
  ℕ, String, Bool, true, false, not, ◌&&◌, ◌||◌, Option, none, some, is_some, List, [], ◌∷◌, ◌≡◌,
  ◌⊎◌, ◌↔◌, inl, inr, refl, sym, ◌∙◌, ap, arith, str_contains, if◌then◌else◌, if_rule, false≢true,
  Bool-cases,
}

pub record Endpoint : Type 0 where
  pub socket_path : Option String
  pub host : Option String
  pub port : Option ℕ

unfoldable pub loopback_hosts : List String
loopback_hosts = "127.0.0.1" ∷ "::1" ∷ "localhost" ∷ []

pub data Verdict : Type 0 where
  accepted no_endpoint not_loopback : Verdict

abbrev pub is_foreign : Option String → Bool
is_foreign none = false
is_foreign (some host) = not (str_contains loopback_hosts host)

unfoldable pub post_init : Endpoint → Verdict
unfolding loopback_hosts
post_init e =
    if not (is_some e.socket_path) && (not (is_some e.host) || not (is_some e.port))
    then no_endpoint
    else if is_foreign e.host
    then not_loopback
    else accepted

-- a Unix socket, or a host and a port; and no host but a loopback one
pub record IsLocal (e : Endpoint) : Type 0 where
  pub reachable :
      (is_some e.socket_path ≡ true) ⊎ ((is_some e.host ≡ true) × (is_some e.port ≡ true))
  pub loopback : (host : String) → e.host ≡ some host → str_contains loopback_hosts host ≡ true

abbrev is_accepted : Verdict → Bool
is_accepted accepted = true
is_accepted _ = false

not-false : (b : Bool) → not b ≡ false → b ≡ true
not-false b h = ground arith

host_loopback :
    (o : Option String) (host : String)
    → is_foreign o ≡ false
    → o ≡ some host
    → str_contains loopback_hosts host ≡ true
host_loopback o host h e = not-false _ (sym (ap is_foreign e) ∙ h)

foreign_host :
    (o : Option String)
    → ((host : String) → o ≡ some host → str_contains loopback_hosts host ≡ true)
    → is_foreign o ≡ false
foreign_host none h = refl
foreign_host (some host) h = rw (h host refl) refl

by_port : (s h p : Bool) → s ≡ false → not s && (not h || not p) ≡ false → (h ≡ true) × (p ≡ true)
by_port s h p e given = (ground arith, ground arith)

module _ (e : Endpoint) where
  refuses : is_foreign e.host ≡ true → is_accepted (post_init e) ≡ false
  unfolding post_init
  refuses foreign =
      if_rule (λ v. is_accepted v ≡ false)
        (not (is_some e.socket_path) && (not (is_some e.host) || not (is_some e.port))) _ _
        (λ _. refl) λ _. rw foreign refl

  passes :
      post_init e ≡ accepted
      → not (is_some e.socket_path) && (not (is_some e.host) || not (is_some e.port)) ≡ false
  unfolding post_init
  passes h =
      elim (Bool-cases
        (not (is_some e.socket_path) && (not (is_some e.host) || not (is_some e.port)))) [
          | inl missing ↦ absurd (false≢true (sym (rw missing refl) ∙ ap is_accepted h))
          | inr given ↦ given
        ]

-- A configuration is accepted exactly when it names a Unix socket, or a host and a port, and names
-- no host but the loopback ones.
pub accepted_exact : (e : Endpoint) → (post_init e ≡ accepted) ↔ IsLocal e
unfolding post_init
accepted_exact e = (local, taken)
  where
    local : post_init e ≡ accepted → IsLocal e
    local h = elim (Bool-cases (is_foreign e.host)) [
      | inl foreign ↦ absurd (false≢true (sym (refuses e foreign) ∙ ap is_accepted h))
      | inr home ↦ record {
        reachable = elim (Bool-cases (is_some e.socket_path)) [
          | inl unix ↦ inl unix
          | inr tcp ↦
              inr
                (by_port (is_some e.socket_path) (is_some e.host) (is_some e.port) tcp (passes e h))
        ];
        loopback = λ host. host_loopback e.host host home;
      }
    ]

    taken : IsLocal e → post_init e ≡ accepted
    taken h =
        let home = foreign_host e.host h.loopback in
        elim h.reachable [
          | inl unix ↦ rw (unix, home) refl
          | inr (host, port) ↦ elim (Bool-cases (is_some e.socket_path)) [
            | inl unix ↦ rw (unix, home) refl
            | inr tcp ↦ rw (tcp, host, port, home) refl
          ]
        ]
