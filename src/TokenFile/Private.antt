-- ===== src/TokenFile/Private.antt =====
-- What a token loaded under the policy is worth.
use pipecat_local_stt_server.Prelude.{
  ℕ, String, Bool, true, false, not, ◌&&◌, ◌||◌, Option, none, some, is_some, [], ◌∷◌, ◌≡◌, ◌⊎◌,
  inl, inr, refl, sym, ap, subst, false≢true, ◌==◌, ==→eq, arith, all, str_eq, if◌then◌else◌,
  Bool-cases,
}
use pipecat_local_stt_server.Prelude.Text.{codes}
use pipecat_local_stt_server.TokenFile.{
  Stat, Names, FilePath, System, Refusal, not_absolute, not_regular, is_symlink, cannot_open,
  empty_token, bad_characters, acl_write_rights, is_regular, has_shared_bits, other_writes,
  group_writes, is_root_group, acl_allows, first_refusal, refuse_if, check_dir_stat, check_dir,
  check_dirs, same_file, check_file, dirname, rejoin, Checked, passed, refused, pass_or,
  policy_under, policy_of, check_token_file_policy, is_visible, strict_token, Opening, opens,
  no_file, follows_link, open_fails, read_checked, with_path, load_token_file,
}

-- A directory whose entries no other user can change: owned by the user or root, not writable by
-- others, by a group only if root's own, and with no readable allow entry of a write-class right.
pub record IsPrivateDir (sys : System) (me : ℕ) (dir : Names) : Type 0 where
  pub stat : Stat
  pub found : sys.stat dir ≡ some stat
  pub owner : (stat.owner ≡ me) ⊎ (stat.owner ≡ 0)
  pub no_others : other_writes stat.mode ≡ false
  pub no_group :
      (group_writes stat.mode ≡ false) ⊎ ((stat.owner ≡ 0) × (is_root_group stat.group ≡ true))
  pub no_acl : acl_allows (some acl_write_rights) (sys.acl dir) ≡ false

-- all directories from a path to the root
abbrev pub AllPrivate : System → ℕ → Names → Type 0
AllPrivate sys me [] = IsPrivateDir sys me []
AllPrivate sys me (name ∷ up) = IsPrivateDir sys me (name ∷ up) × AllPrivate sys me up

-- The opened file is a regular one of the user's, closed to group and others by mode and ACL, and
-- the resolved path names the same file.
pub record IsPrivateFile (sys : System) (me : ℕ) (opened : Stat) (resolved : Names) : Type 0 where
  pub regular : is_regular opened.mode ≡ true
  pub same : same_file opened (sys.lstat resolved) ≡ true
  pub own : opened.owner ≡ me
  pub closed : has_shared_bits opened.mode ≡ false
  pub no_acl : acl_allows none (sys.acl resolved) ≡ false

both_none : (a b : Option Refusal) → first_refusal a b ≡ none → (a ≡ none) × (b ≡ none)
both_none none b h = (refl, h)
both_none (some why) b h = absurd (false≢true (sym (ap is_some h)))

not_refused : (b : Bool) (why : Refusal) → refuse_if b why ≡ none → b ≡ false
not_refused false why h = refl
not_refused true why h = absurd (false≢true (sym (ap is_some h)))

not-false : (b : Bool) → not b ≡ false → b ≡ true
not-false b h = ground arith

dir_stat :
    (me : ℕ) (o : Option Stat)
    → check_dir_stat me o ≡ none
    → (st : Stat) × (o ≡ some st)
      × ((st.owner == me || st.owner == 0) ≡ true)
      × ((other_writes st.mode
            || (group_writes st.mode && not (st.owner == 0 && is_root_group st.group)))
          ≡ false)
dir_stat me none h = absurd (false≢true (sym (ap is_some h)))
dir_stat me (some st) h =
    let checked = both_none _ _ h in
    (st, refl, not-false _ (not_refused _ _ checked.0), not_refused _ _ checked.1)

or_owner : (n me : ℕ) → (n == me || n == 0) ≡ true → (n ≡ me) ⊎ (n ≡ 0)
or_owner n me h = elim (Bool-cases (n == me)) [
  | inl same ↦ inl (==→eq n me same)
  | inr other ↦ inr (==→eq n 0 (ground arith))
]

private_dir :
    (sys : System) (me : ℕ) (dir : Names) → check_dir sys me dir ≡ none → IsPrivateDir sys me dir
unfolding check_dir
private_dir sys me dir h =
    let checked = both_none _ _ h in
    let (st, found, owner, closed) = dir_stat me (sys.stat dir) checked.0 in
    record {
      stat = st;
      found = found;
      owner = or_owner st.owner me owner;
      no_others = ground arith;
      no_group = elim (Bool-cases (group_writes st.mode)) [
        | inl writes ↦ inr (==→eq st.owner 0 (ground arith), ground arith)
        | inr no_write ↦ inl no_write
      ];
      no_acl = not_refused _ _ checked.1;
    }

private_dirs :
    (sys : System) (me : ℕ) (dir : Names) → check_dirs sys me dir ≡ none → AllPrivate sys me dir
unfolding check_dirs
private_dirs sys me [] h = private_dir sys me [] h
private_dirs sys me (name ∷ up) h =
    let checked = both_none (check_dir sys me (name ∷ up)) _ h in
    (private_dir sys me (name ∷ up) checked.0, private_dirs sys me up checked.1)

abbrev is_passed {ℓ} : {A : Type ℓ} → Checked A → Bool
is_passed (passed x) = true
is_passed (refused why) = false

passed_by {ℓ} :
    {A : Type ℓ} (test : Bool) (why : Refusal) (next : Checked A) (x : A)
    → (if test then refused why else next) ≡ passed x
    → (test ≡ false) × (next ≡ passed x)
passed_by true why next x h = absurd (false≢true (ap is_passed h))
passed_by false why next x h = (refl, h)

never_passes :
    {A : Type 0} (test : Bool) (a b : Refusal) (x : A)
    → (if test then refused a else refused b) ≡ passed x
    → ⊥
never_passes true a b x h = false≢true (ap is_passed h)
never_passes false a b x h = false≢true (ap is_passed h)

abbrev where_passed {ℓ} : {A : Type ℓ} → A → Checked A → A
where_passed x (passed y) = y
where_passed x (refused why) = x

passed_pass :
    {A : Type 0} (o : Option Refusal) (x y : A) → pass_or o x ≡ passed y → (o ≡ none) × (x ≡ y)
passed_pass none x y h = (refl, ap (where_passed x) h)
passed_pass (some why) x y h = absurd (false≢true (ap is_passed h))

private_file :
    (sys : System) (me : ℕ) (opened : Stat) (resolved : Names)
    → is_regular opened.mode ≡ true
    → check_file sys me opened resolved ≡ none
    → IsPrivateFile sys me opened resolved
unfolding check_file
private_file sys me opened resolved regular h =
    let same = both_none _ _ h in
    let own = both_none _ _ same.1 in
    let closed = both_none _ _ own.1 in
    record {
      regular = regular;
      same = not-false _ (not_refused _ _ same.0);
      own = ==→eq opened.owner me (not-false _ (not_refused _ _ own.0));
      closed = not_refused _ _ closed.0;
      no_acl = not_refused _ _ closed.1;
    }

-- the resolved path is the file's name in a chain of private directories
abbrev pub IsSafePlace : System → ℕ → Names → Stat → Names → Type 0
IsSafePlace sys me names opened resolved =
    (parent : Names) × (sys.realpath (dirname names) ≡ some parent)
    × (rejoin names parent ≡ resolved)
    × IsPrivateFile sys me opened resolved
    × AllPrivate sys me parent

safe_under :
    (sys : System) (me : ℕ) (opened : Stat) (names resolved : Names) (o : Option Names)
    → sys.realpath (dirname names) ≡ o
    → is_regular opened.mode ≡ true
    → policy_under sys me opened names o ≡ passed resolved
    → IsSafePlace sys me names opened resolved
safe_under sys me opened names resolved none e regular h = absurd (false≢true (ap is_passed h))
safe_under sys me opened names resolved (some parent) e regular h =
    let ok = passed_pass _ (rejoin names parent) resolved h in
    let checked = both_none _ _ ok.0 in
    (
      parent,
      e,
      ok.1,
      subst (IsPrivateFile sys me opened) ok.1
          (private_file sys me opened (rejoin names parent) regular checked.0),
      private_dirs sys me parent checked.1,
    )

safe_policy :
    (sys : System) (me : ℕ) (opened : Stat) (names resolved : Names)
    → policy_of sys me names opened ≡ passed resolved
    → IsSafePlace sys me names opened resolved
unfolding policy_of
safe_policy sys me opened names resolved h =
    let regular = passed_by _ _ _ resolved h in
    safe_under sys me opened names resolved (sys.realpath (dirname names)) refl
      (not-false _ regular.0) regular.1

-- some visible ASCII characters, and nothing else
abbrev pub IsToken : String → Type 0
IsToken token = (str_eq token "" ≡ false) × (all is_visible (codes token) ≡ true)

strict-IsToken : (t token : String) → strict_token t ≡ passed token → IsToken token
unfolding strict_token
strict-IsToken t token h =
    let filled = passed_by (str_eq t "") empty_token _ token h in
    let visible =
      passed_by (not (all is_visible (codes t))) bad_characters (passed t) token filled.1 in
    subst IsToken (ap (where_passed t) visible.1) (filled.0, not-false _ visible.0)

read_both :
    (resolved : Names) (c : Checked String) (out : Names × String)
    → with_path resolved c ≡ passed out
    → (c ≡ passed out.1) × (resolved ≡ out.0)
read_both resolved (passed token) out h =
    let same : (resolved, token) ≡ out = ap (where_passed (resolved, token)) h in
    (ap (λ (p : Names × String). passed p.1) same, ap (λ (p : Names × String). p.0) same)
read_both resolved (refused why) out h = absurd (false≢true (ap is_passed h))

loaded_text :
    (strip : String → String) (t : Option String) (c : Checked Names) (out : Names × String)
    → read_checked strip t c ≡ passed out
    → (c ≡ passed out.0) × IsToken out.1
loaded_text strip t (refused why) out h = absurd (false≢true (ap is_passed h))
loaded_text strip none (passed resolved) out h = absurd (false≢true (ap is_passed h))
loaded_text strip (some t) (passed resolved) out h =
    let both = read_both resolved (strict_token (strip t)) out h in
    (ap passed both.1, strict-IsToken (strip t) out.1 both.0)

-- what the file was when it was opened
abbrev pub OpenedAs : Opening → Stat → Type 0
OpenedAs (opens st t) opened = st ≡ opened
OpenedAs _ opened = ⊥

-- A token that is loaded is some visible ASCII characters, and comes from a regular file that was
-- opened without following a link, is the user's own and closed to everyone else, has the
-- resolved path's name, and lies in directories that no other user can write, up to the root.
pub loaded_is_private :
    (sys : System) (me : ℕ) (path : FilePath) (strip : String → String) (opening : Opening)
    (out : Names × String)
    → load_token_file sys me path strip opening ≡ passed out
    → (opened : Stat) × OpenedAs opening opened
      × IsSafePlace sys me path.names opened out.0
      × IsToken out.1
unfolding load_token_file check_token_file_policy
loaded_is_private sys me path strip (opens st t) out h =
    let absolute = passed_by _ _ _ out h in
    let loaded = loaded_text strip t _ out absolute.1 in
    let inside = passed_by _ _ _ out.0 loaded.0 in
    (st, refl, safe_policy sys me st path.names out.0 inside.1, loaded.1)
loaded_is_private sys me path strip no_file out h =
    absurd (never_passes (not path.absolute) not_absolute not_regular out h)
loaded_is_private sys me path strip follows_link out h =
    absurd (never_passes (not path.absolute) not_absolute is_symlink out h)
loaded_is_private sys me path strip open_fails out h =
    absurd (never_passes (not path.absolute) not_absolute cannot_open out h)
