-- ===== src/SocketDir/Guarded.antt =====
-- What the check of the socket's directory promises.
use pipecat_local_stt_server.Prelude.{
  ℕ, Bool, true, false, not, Option, none, some, [], ◌∷◌, ◌≡◌, ◌⊎◌, refl, sym, ap, is_some, subst,
  str_contains, if◌then◌else◌, if_rule, false≢true, Bool-cases, inl, inr, arith,
}
use pipecat_local_stt_server.SocketDir.{
  Dir, Stat, Os, Refusal, Outcome, bound, refused, loops, is_sticky, same_path, is_under,
  check_stat, or_refuse, walk, walk_made, enforce_socket_dir_secure, IsGuarded, GuardedChain,
  at_root, below, DirPath,
}

check_guards : (euid : ℕ) (o : Option Stat) → check_stat euid o ≡ none → IsGuarded euid o
check_guards euid none h = absurd (false≢true (sym (ap is_some h)))
check_guards euid (some st) h = record {
  stat = st;
  found = refl;
  direct = ground arith;
  own = ground arith;
  private = elim (Bool-cases (is_sticky st.mode)) [
    | inl sticky ↦ inr sticky
    | inr plain ↦ inl (ground arith)
  ];
}

abbrev is_bound {ℓ} : {A : Type ℓ} → Outcome A → Bool
is_bound (bound _) = true
is_bound _ = false

refused_unbound {ℓ} :
    {A : Type ℓ} (o : Option Refusal) (next : Outcome A) (x : A)
    → or_refuse o next ≡ bound x
    → (o ≡ none) × (next ≡ bound x)
refused_unbound none next x h = (refl, h)
refused_unbound (some why) next x h = absurd (false≢true (ap is_bound h))

abbrev where_bound {ℓ} : {A : Type ℓ} → A → Outcome A → A
where_bound x (bound y) = y
where_bound x _ = x

stops_or_climbs {ℓ} :
    {A : Type ℓ} (here : Bool) (x end : A) (rest : Outcome A)
    → (if here then bound x else rest) ≡ bound end
    → ((here ≡ true) × (x ≡ end)) ⊎ (rest ≡ bound end)
stops_or_climbs true x end rest h = inl (refl, ap (where_bound x) h)
stops_or_climbs false x end rest h = inr h

walk_guards {ℓ} :
    {Fs : Type ℓ} (os : Os Fs) (root : DirPath) (fs end : Fs) (path : DirPath)
    → walk os root fs path ≡ bound end
    → GuardedChain os root fs path × (fs ≡ end)
unfolding walk
walk_guards os root fs end [] h =
    let checked = refused_unbound _ _ end h in
    elim (stops_or_climbs (same_path [] root) fs end loops checked.1) [
      | inl (here, same) ↦ (at_root (check_guards os.euid _ checked.0) here, same)
      | inr climbs ↦ absurd (false≢true (ap is_bound climbs))
    ]
walk_guards os root fs end (name ∷ up) h =
    let checked = refused_unbound _ _ end h in
    let guarded = check_guards os.euid _ checked.0 in
    elim (stops_or_climbs (same_path (name ∷ up) root) fs end (walk os root fs up) checked.1) [
      | inl (here, same) ↦ (at_root guarded here, same)
      | inr climbs ↦
          let rest = walk_guards os root fs end up climbs in (below guarded rest.0, rest.1)
    ]

made_guards {ℓ} :
    {Fs : Type ℓ} (os : Os Fs) (root : DirPath) (end : Fs) (path : DirPath) (made : Option Fs)
    → walk_made os root path made ≡ bound end
    → GuardedChain os root end path
made_guards os root end path none h = absurd (false≢true (ap is_bound h))
made_guards os root end path (some fs) h =
    let walked = walk_guards os root fs end path h in
    subst (λ (f : _). GuardedChain os root f path) walked.1 walked.0

not-false : (b : Bool) → not b ≡ false → b ≡ true
not-false b h = ground arith

bound_by {ℓ} :
    {A : Type ℓ} (test : Bool) (why : Refusal) (next : Outcome A) (x : A)
    → (if test then refused why else next) ≡ bound x
    → (test ≡ false) × (next ≡ bound x)
bound_by true why next x h = absurd (false≢true (ap is_bound h))
bound_by false why next x h = (refl, h)

-- Where the server goes on to bind, the path is absolute, has no `..` part, and in the file system
-- as it is then every directory from the socket's own up to the trusted root is no link, the
-- server's own, and not writable by others unless it is sticky.
pub bound_is_guarded {ℓ} :
    {Fs : Type ℓ} (os : Os Fs) (root : DirPath) (dir : Dir) (fs end : Fs)
    → enforce_socket_dir_secure os root dir fs ≡ bound end
    → (dir.absolute ≡ true)
      × (str_contains dir.parts ".." ≡ false)
      × GuardedChain os root end dir.parts
unfolding enforce_socket_dir_secure
bound_is_guarded os root dir fs end h =
    let absolute = bound_by _ _ _ end h in
    let no_dots = bound_by _ _ _ end absolute.1 in
    let inside = bound_by _ _ _ end no_dots.1 in
    (not-false dir.absolute absolute.0, no_dots.0, made_guards os root end dir.parts _ inside.1)

abbrev pub is_loops {ℓ} : {A : Type ℓ} → Outcome A → Bool
is_loops loops = true
is_loops _ = false

refuse_ends {ℓ} :
    {A : Type ℓ} (o : Option Refusal) (next : Outcome A)
    → is_loops next ≡ false
    → is_loops (or_refuse o next) ≡ false
refuse_ends none next h = h
refuse_ends (some why) next h = refl

walk_ends {ℓ} :
    {Fs : Type ℓ} (os : Os Fs) (root : DirPath) (fs : Fs) (path : DirPath)
    → is_under root path ≡ true
    → is_loops (walk os root fs path) ≡ false
unfolding walk is_under
walk_ends os root fs [] h = refuse_ends (check_stat os.euid (os.lstat fs [])) _ (rw h refl)
walk_ends os root fs (name ∷ up) h = refuse_ends (check_stat os.euid (os.lstat fs (name ∷ up))) _ (
    if_rule (λ (o : Outcome _). is_loops o ≡ false) (same_path (name ∷ up) root) _ _ (λ _. refl)
      λ apart. walk_ends os root fs up (ground arith))

made_ends {ℓ} :
    {Fs : Type ℓ} (os : Os Fs) (root : DirPath) (path : DirPath) (made : Option Fs)
    → is_under root path ≡ true
    → is_loops (walk_made os root path made) ≡ false
made_ends os root path none h = refl
made_ends os root path (some fs) h = walk_ends os root fs path h

-- The walk never runs past the root of the file system: whatever the directories are, the check
-- ends in the verified path or in a refusal.
pub check_ends {ℓ} :
    {Fs : Type ℓ} (os : Os Fs) (root : DirPath) (dir : Dir) (fs : Fs)
    → is_loops (enforce_socket_dir_secure os root dir fs) ≡ false
unfolding enforce_socket_dir_secure
check_ends {Fs} os root dir fs =
    if_rule ends (not dir.absolute) _ _ (λ _. refl)
      λ _.
        if_rule ends (str_contains dir.parts "..") _ _ (λ _. refl)
          λ _.
            if_rule ends (not (is_under root dir.parts)) _ _ (λ _. refl)
              λ inside. made_ends os root dir.parts _ (not-false _ inside)
  where
    ends : Outcome Fs → Type 0
    ends o = is_loops o ≡ false
