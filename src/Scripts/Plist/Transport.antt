-- ===== src/Scripts/Plist/Transport.antt =====
-- The parts of a rendered list that scripts/render_stt_plist.py checks: the address and the token.
use pipecat_local_stt_server.Prelude.{
  ℕ, ◌≤◌, String, Bool, true, false, ◌&&◌, ◌||◌, leb, Option, none, some, is_some, List, [], ◌∷◌,
  ◌≡◌, refl, sym, ◌∙◌, ap, inl, inr, arith, str_eq, str_contains, if◌then◌else◌, Bool-cases,
  false≢true,
}
use pipecat_local_stt_server.Prelude.Text.{codes}
use pipecat_local_stt_server.Config.{loopback_hosts}
use pipecat_local_stt_server.Scripts.Plist.Render.{
  is_abspath, is_port, number_of, and_then, when, value_of, require, or_default, tcp_args,
  transport_of, token_args_of,
}

abbrev of_option : {A : Type 0} → Option A → A → A
of_option none d = d
of_option (some x) d = x

abbrev pub Ensures : {A : Type 0} → (A → Type 0) → Option A → Type 0
Ensures P none = Unit
Ensures P (some x) = P x

pub Ensures-then :
    {A B : Type 0} (P : B → Type 0) (m : Option A) (f : A → Option B)
    → ((x : A) → m ≡ some x → Ensures P (f x))
    → Ensures P (and_then m f)
Ensures-then P none f h = tt
Ensures-then P (some x) f h = h x refl

-- the flags of the address, for a socket path and a host that may be given
abbrev pub TransportIs : (ℕ → String) → Option String → Option String → List String → Type 0
TransportIs str (some path) host args = args ≡ "--socket-path" ∷ path ∷ []
TransportIs str none host args =
    (n : ℕ) × (args ≡ "--host" ∷ or_default host "127.0.0.1" ∷ "--port" ∷ str n ∷ [])
    × (1 ≤ n)
    × (n ≤ 65535)
    × (str_contains loopback_hosts (or_default host "127.0.0.1") ≡ true)

pub Ensures-when :
    {A : Type 0} (P : A → Type 0) (test : Bool) (x : A)
    → (test ≡ true → P x)
    → Ensures P (when test x)
Ensures-when P true x h = h refl
Ensures-when P false x h = tt

pub when-some :
    {A : Type 0} (test : Bool) (x y : A) → when test x ≡ some y → (test ≡ true) × (x ≡ y)
when-some true x y h = (refl, ap (λ o. of_option o x) h)
when-some false x y h = absurd (false≢true (ap is_some h))

pub value_of-filled :
    (v : Option String) (path : String) → value_of v ≡ some path → str_eq path "" ≡ false
value_of-filled none path h = absurd (false≢true (ap is_some h))
value_of-filled (some val) path h = elim (Bool-cases (str_eq val "")) [
  | inl empty ↦ absurd (false≢true (ap is_some (rw empty at h)))
  | inr filled ↦ sym (ap (λ o. str_eq (of_option o path) "") (rw filled at h)) ∙ filled
]

leb→le : (a b : ℕ) → leb a b ≡ true → a ≤ b
leb→le a b h = ground arith

pub transport-TransportIs :
    (str : ℕ → String) (socket host port : Option String)
    → Ensures (TransportIs str socket host) (transport_of str socket host port)
transport-TransportIs str none host port =
    Ensures-then (TransportIs str none host)
      (when (str_contains loopback_hosts (or_default host "127.0.0.1"))
        (or_default host "127.0.0.1"))
      _
      λ h found.
        let (loopback, same) = when-some _ _ h found in
        Ensures-then (TransportIs str none host) (require port is_port) (tcp_args str h) λ digits _.
          Ensures-when (TransportIs str none host)
            (leb 1 (number_of 0 (codes digits)) && leb (number_of 0 (codes digits)) 65535) _
            λ bounds. (
              number_of 0 (codes digits),
              ap (λ (x : String). "--host" ∷ x ∷ "--port" ∷ str (number_of 0 (codes digits)) ∷ [])
                  (sym same),
              ground (arith, bounds),
              ground (arith, bounds),
              loopback,
            )
transport-TransportIs str (some path) host port = both (is_some host || is_some port)
  where
    both :
        (given : Bool)
        → Ensures (TransportIs str (some path) host) (
            if given
            then none
            else and_then (when (is_abspath path) path) λ path. some ("--socket-path" ∷ path ∷ []))
    both true = tt
    both false =
        Ensures-then (TransportIs str (some path) host) (when (is_abspath path) path) _
          λ x found. ap (λ (y : String). "--socket-path" ∷ y ∷ []) (sym (when-some _ _ x found).1)

abbrev pub TokenIs : Option String → List String → Type 0
TokenIs none args = args ≡ []
TokenIs (some path) args = args ≡ "--auth-token-file" ∷ path ∷ []

pub token-TokenIs : (v : Option String) → Ensures (TokenIs v) (token_args_of v)
token-TokenIs none = refl
token-TokenIs (some path) = Ensures-when (TokenIs (some path)) (is_abspath path) _ λ _. refl
