-- ===== src/Scripts/Squat/Listeners.antt =====
-- Which processes scripts/squat_check.py takes for listeners.
use pipecat_local_stt_server.Prelude.{
  String, Bool, true, false, ◌&&◌, ◌||◌, Option, none, some, List, [], ◌∷◌, ◌++◌, ◌≡◌, refl, ◌∙◌,
  ap, subst, arith, str_eq, str_contains, eq_iff, any, map, if◌then◌else◌, Bool-cases, inl, inr,
}
use pipecat_local_stt_server.Scripts.Squat.{
  LsofLine, process, address, other_field, line_of, Listing, add_pid, flush, take_line, take_lines,
  splitlines, address_matches, parse,
}

-- Is the process one that has a matching address among those between its line and the next process's?
abbrev is_current : Option String → String → Bool
is_current none p = false
is_current (some pid) p = str_eq pid p

abbrev pub listens : (String → Bool) → Option String → List LsofLine → String → Bool
listens matches cur [] p = false
listens matches cur (process pid ∷ lines) p = listens matches (some pid) lines p
listens matches cur (address addr ∷ lines) p =
    (is_current cur p && matches addr) || listens matches cur lines p
listens matches cur (other_field ∷ lines) p = listens matches cur lines p

str_contains-snoc :
    (pids : List String) (pid p : String)
    → str_contains (pids ++ (pid ∷ [])) p ≡ (str_contains pids p || str_eq pid p)
str_contains-snoc [] pid p = same (str_eq pid p)
  where
    same : (b : Bool) → (if b then true else false) ≡ (false || b)
    same b = ground arith
str_contains-snoc (q ∷ pids) pid p =
    ap (λ rest. if str_eq q p then true else rest) (str_contains-snoc pids pid p)
    ∙ later (str_eq q p) (str_contains pids p) (str_eq pid p)
  where
    later : (a b c : Bool) → (if a then true else (b || c)) ≡ ((if a then true else b) || c)
    later a b c = ground arith

in_already : (b c : Bool) → (c ≡ true → b ≡ true) → b ≡ (b || c)
in_already true c h = refl
in_already false true h = h refl
in_already false false h = refl

str_contains-add_pid :
    (pids : List String) (pid p : String)
    → str_contains (add_pid pid pids) p ≡ (str_contains pids p || str_eq pid p)
str_contains-add_pid pids pid p = elim (Bool-cases (str_contains pids pid)) [
  | inl there ↦
      rw there (
        in_already _ _
          λ same. subst (λ q. str_contains pids q ≡ true) ((eq_iff pid p).0 same) there)
  | inr new ↦ rw new (str_contains-snoc pids pid p)
]

str_contains-flush :
    (matches : String → Bool) (listing : Listing) (p : String)
    → str_contains (flush matches listing) p
      ≡ (str_contains listing.pids p || (is_current listing.cur p && any matches listing.addrs))
str_contains-flush matches listing p = by_current listing.cur
  where
    no_more : (b : Bool) → b ≡ (b || false)
    no_more b = ground arith

    with_none : (b c : Bool) → b ≡ (b || (c && false))
    with_none b c = ground arith

    with_one : (b c : Bool) → (b || c) ≡ (b || (c && true))
    with_one b c = ground arith

    by_current :
        (cur : Option String)
        → str_contains
            (flush matches (record { pids = listing.pids; cur = cur; addrs = listing.addrs }))
            p
          ≡ (str_contains listing.pids p || (is_current cur p && any matches listing.addrs))
    by_current none = no_more _
    by_current (some pid) = elim (Bool-cases (any matches listing.addrs)) [
      | inl one ↦ rw one (str_contains-add_pid listing.pids pid p ∙ with_one _ _)
      | inr none_there ↦ rw none_there (with_none _ _)
    ]

any-snoc :
    (matches : String → Bool) (addrs : List String) (addr : String)
    → any matches (addrs ++ (addr ∷ [])) ≡ (any matches addrs || matches addr)
any-snoc matches [] addr = or_false (matches addr)
  where
    or_false : (b : Bool) → (b || false) ≡ b
    or_false b = ground arith
any-snoc matches (a ∷ addrs) addr =
    ap (λ rest. matches a || rest) (any-snoc matches addrs addr)
    ∙ assoc (matches a) (any matches addrs) (matches addr)
  where
    assoc : (a b c : Bool) → (a || (b || c)) ≡ ((a || b) || c)
    assoc a b c = ground arith

take_lines-listens :
    (matches : String → Bool) (listing : Listing) (lines : List String) (p : String)
    → str_contains (take_lines matches listing lines) p ≡ (
        (str_contains listing.pids p || (is_current listing.cur p && any matches listing.addrs))
        || listens matches listing.cur (map line_of lines) p)
unfolding take_lines
take_lines-listens matches listing [] p = str_contains-flush matches listing p ∙ no_more _
  where
    no_more : (b : Bool) → b ≡ (b || false)
    no_more b = ground arith
take_lines-listens matches listing (line ∷ lines) p =
    take_lines-listens matches (take_line matches listing (line_of line)) lines p
    ∙ by_line (line_of line)
  where
    drop : (x b l : Bool) → ((x || (b && false)) || l) ≡ (x || l)
    drop x b l = ground arith

    spread :
        (c i a m l : Bool) → ((c || (i && (a || m))) || l) ≡ ((c || (i && a)) || ((i && m) || l))
    spread c i a m l = ground arith

    by_line :
        (l : LsofLine)
        → ((str_contains (take_line matches listing l).pids p
              || (is_current (take_line matches listing l).cur p
                  && any matches (take_line matches listing l).addrs))
            || listens matches (take_line matches listing l).cur (map line_of lines) p)
          ≡ ((str_contains listing.pids p
                || (is_current listing.cur p && any matches listing.addrs))
              || listens matches listing.cur (l ∷ map line_of lines) p)
    by_line (process pid) = rw (str_contains-flush matches listing p) (
        drop
          (str_contains listing.pids p || (is_current listing.cur p && any matches listing.addrs))
          (str_eq pid p) (listens matches (some pid) (map line_of lines) p))
    by_line (address addr) = rw (any-snoc matches listing.addrs addr) (
        spread (str_contains listing.pids p) (is_current listing.cur p) (any matches listing.addrs)
          (matches addr) (listens matches listing.cur (map line_of lines) p))
    by_line other_field = refl

-- What is read of lsof's answer are the processes that listen: a process is in the list exactly where one
-- of the addresses between its line and the next process's is the host, or a wildcard.
pub parse_exact :
    (lower : String → String) (out : String) (host : Option String) (p : String)
    → str_contains (parse lower out host) p
      ≡ listens (λ addr. address_matches lower addr host) none (map line_of (splitlines out)) p
unfolding parse
parse_exact lower out host p =
    take_lines-listens (λ addr. address_matches lower addr host)
      (record { pids = []; cur = none; addrs = [] }) (splitlines out) p
