-- ===== src/Lifecycle/Ledger.antt =====
-- The live-work ledger `_live_work`, a dict from futures and plain keys to `_Work` entries, and
-- `_live_reasons`, which counts it by kind and label.
use pipecat_local_stt_server.Prelude.{
  ℕ, suc, ◌+◌, String, Bool, true, false, not, ◌&&◌, ◌||◌, Option, none, some, List, [], ◌∷◌, ◌++◌,
  ◌==◌, str_eq, if◌then◌else◌,
}

-- `token`: a step of the server's own, and `listening`: a bound listener; both are live until
-- `_end_work`. `task`: a future.
pub data Key : Type 0 where
  token listening task : ℕ → Key

unfoldable pub same_key : Key → Key → Bool
same_key (token a) (token b) = a == b
same_key (listening a) (listening b) = a == b
same_key (task a) (task b) = a == b
same_key _ _ = false

pub data Kind : Type 0 where
  listener session step close bind listener_close adopted thread : Kind

unfoldable pub kind_number : Kind → ℕ
kind_number listener = 0
kind_number session = 1
kind_number step = 2
kind_number close = 3
kind_number bind = 4
kind_number listener_close = 5
kind_number adopted = 6
kind_number thread = 7

unfoldable pub same_kind : Kind → Kind → Bool
unfolding kind_number
same_kind a b = kind_number a == kind_number b

-- `finished`: the future is done and its `_retire` callback is queued. `orphan`: `then` is
-- `_close_orphan_listener`, the one cleanup that the server passes.
pub record Work : Type 0 where
  pub key : Key
  pub kind : Kind
  pub stuck : Bool
  pub finished : Bool
  pub orphan : Bool
  pub label : Option String

abbrev pub Ledger : Type 0
Ledger = List Work

unfoldable pub has : Key → Ledger → Bool
unfolding same_key
has k [] = false
has k (w ∷ ws) = same_key w.key k || has k ws

-- d.pop(k, None)
unfoldable pub drop : Key → Ledger → Ledger
unfolding same_key
drop k [] = []
drop k (w ∷ ws) = let rest = drop k ws in if same_key w.key k then rest else w ∷ rest

-- the entry of a key, changed
unfoldable pub change : Key → (Work → Work) → Ledger → Ledger
unfolding same_key
change k f [] = []
change k f (w ∷ ws) = (if same_key w.key k then f w else w) ∷ change k f ws

unfoldable pub find : Key → Ledger → Option Work
unfolding same_key
find k [] = none
find k (w ∷ ws) = if same_key w.key k then some w else find k ws

-- d.setdefault(k, w)
unfoldable pub add_default : Work → Ledger → Ledger
add_default w ws = if has w.key ws then ws else ws ++ w ∷ []

-- Every entry of a kind that is not done is marked stuck.
unfoldable pub mark_kind : Kind → Ledger → Ledger
unfolding same_kind
mark_kind k [] = []
mark_kind k (w ∷ ws) =
    (if same_kind w.kind k && not w.finished then record w { stuck = true } else w) ∷ mark_kind k ws

-- one line of `_live_reasons`
pub record LiveReason : Type 0 where
  pub kind : Kind
  pub label : Option String
  pub count : ℕ
  pub stuck : ℕ

unfoldable pub same_label : Option String → Option String → Bool
same_label none none = true
same_label (some a) (some b) = str_eq a b
same_label _ _ = false

abbrev pub bit : Bool → ℕ
bit true = 1
bit false = 0

-- `counts.setdefault((w.kind, w.label), [0, 0])`, then both counts
unfoldable pub tally : Work → List LiveReason → List LiveReason
unfolding same_kind same_label
tally w [] = record { kind = w.kind; label = w.label; count = 1; stuck = bit w.stuck } ∷ []
tally w (r ∷ rs) =
    let rest = tally w rs in
    if same_kind r.kind w.kind && same_label r.label w.label
    then record r { count = suc r.count; stuck = r.stuck + bit w.stuck } ∷ rs
    else r ∷ rest

unfoldable pub tally_all : List LiveReason → Ledger → List LiveReason
unfolding tally
tally_all rs [] = rs
tally_all rs (w ∷ ws) = tally_all (tally w rs) ws

unfoldable pub live_reasons : Ledger → List LiveReason
unfolding tally_all
live_reasons ws = tally_all [] ws
