-- ===== src/Startup/Chain.antt =====
-- The walk of a chain of exceptions ends, also on a cycle.
use pipecat_local_stt_server.Prelude.{
  ℕ, zero, suc, ◌+◌, ◌≤◌, ◌<◌, true, false, Option, none, some, List, [], ◌∷◌, ◌≡◌, refl, arith,
  contains, ◌==◌, if◌then◌else◌, Bool-cases, inl, inr, subst, ==→eq, if_rule, sym, ◌∙◌, false≢true,
}
use pipecat_local_stt_server.Startup.{Heap, next_of, prepend, walk}

-- every exception of the heap below `n` refers to ones below `n` only
abbrev pub Below : ℕ → Option ℕ → Type 0
Below n none = Unit
Below n (some id) = id < n

abbrev pub IsClosed : ℕ → Heap → Type 0
IsClosed n heap = (id : ℕ) → id < n → Below n (next_of heap id)

-- how many numbers below `n` the walk has not seen
pub unseen : ℕ → List ℕ → ℕ
unseen zero seen = 0
unseen (suc n) seen = (if contains seen n then 0 else 1) + unseen n seen

pub unseen-le : (n : ℕ) (seen : List ℕ) → unseen n seen ≤ n
unfolding unseen
unseen-le zero seen = omega arith
unseen-le (suc n) seen = let rest = unseen-le n seen in ground arith

-- one more that is seen already, or not below `n`, changes nothing
unseen-cons_out : (n id : ℕ) (seen : List ℕ) → n ≤ id → unseen n (id ∷ seen) ≡ unseen n seen
unfolding unseen
unseen-cons_out zero id seen h = refl
unseen-cons_out (suc n) id seen h =
    let rest = unseen-cons_out n id seen (omega (arith, h)) in ground arith

unseen-cons :
    (n id : ℕ) (seen : List ℕ)
    → id < n
    → contains seen id ≡ false
    → suc (unseen n (id ∷ seen)) ≡ unseen n seen
unfolding unseen
unseen-cons zero id seen h new = absurd (omega (arith, h))
unseen-cons (suc n) id seen h new = elim (Bool-cases (id == n)) [
  | inl last ↦
      let rest = unseen-cons_out n id seen (ground arith) in
      let fresh : contains seen n ≡ false =
        subst (λ (k : ℕ). contains seen k ≡ false) (==→eq id n last) new in
      ground arith
  | inr below ↦ let rest = unseen-cons n id seen (ground arith) new in ground arith
]

abbrev pub IsDistinct : List ℕ → Type 0
IsDistinct [] = Unit
IsDistinct (x ∷ xs) = (contains xs x ≡ false) × IsDistinct xs

-- an answer of the walk: a list without repetition, of exceptions not seen before
abbrev pub Walked : List ℕ → Option (List ℕ) → Type 0
Walked seen r =
    (chain : List ℕ) × (r ≡ some chain)
    × IsDistinct chain
    × ((i : ℕ) → contains seen i ≡ true → contains chain i ≡ false)

Walked-on :
    (id : ℕ) (seen : List ℕ) (r : Option (List ℕ))
    → contains seen id ≡ false
    → Walked (id ∷ seen) r
    → Walked seen (prepend id r)
Walked-on id seen r new (chain, e, distinct, fresh) = (
  id ∷ chain,
  rw e refl,
  (fresh id (ground arith), distinct),
  λ i old. elim (Bool-cases (id == i)) [
    | inl same ↦
        absurd (
          false≢true (sym (subst (λ (k : ℕ). contains seen k ≡ false) (==→eq id i same) new) ∙ old))
    | inr other ↦ let later = fresh i (ground arith) in ground arith
  ],
)

pub walk_from :
    (n : ℕ) (heap : Heap) (fuel : ℕ) (seen : List ℕ) (cur : Option ℕ)
    → IsClosed n heap
    → Below n cur
    → unseen n seen < fuel
    → Walked seen (walk fuel heap seen cur)
unfolding walk
walk_from n heap zero seen cur closed below enough = absurd (omega (arith, enough))
walk_from n heap (suc fuel) seen none closed below enough = ([], refl, tt, λ i _. refl)
walk_from n heap (suc fuel) seen (some id) closed below enough =
    if_rule (Walked seen) (contains seen id) _ _ (λ _. ([], refl, tt, λ i _. refl))
      λ new. Walked-on id seen _ new (
        walk_from n heap fuel (id ∷ seen) (next_of heap id) closed (closed id below)
          (let less = unseen-cons n id seen below new in omega (arith, less, enough)))

-- For exceptions below `n` that refer to each other only, in cycles or not, fuel for one more than
-- `n` steps is enough for the walk to end, and it lists no exception twice.
pub walk_ends :
    (n : ℕ) (heap : Heap) (id : ℕ)
    → IsClosed n heap
    → id < n
    → (chain : List ℕ) × (walk (suc n) heap [] (some id) ≡ some chain) × IsDistinct chain
walk_ends n heap id closed below =
    let (chain, e, distinct, _) =
      walk_from n heap (suc n) [] (some id) closed below
        (let most = unseen-le n [] in omega (arith, most)) in
    (chain, e, distinct)
