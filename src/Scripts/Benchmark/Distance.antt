-- ===== src/Scripts/Benchmark/Distance.antt =====
-- The table of scripts/benchmark_asr_ab.py computes the fewest edits of words.
use pipecat_local_stt_server.Prelude.{
  ℕ, suc, ◌+◌, ◌≤◌, min, String, List, [], ◌∷◌, ◌≡◌, refl, sym, subst, arith, str_eq, str_eq_refl,
  eq_iff, length, Bool-cases, inl, inr,
}
use native.Mathlib.Omega.{min_cases}
use pipecat_local_stt_server.Scripts.Benchmark.{cost, fill_row, fill_rows, count_row, last, errors}

-- One text into another, word by word: so many words deleted, inserted or replaced.
pub data Edits : List String → List String → ℕ → Type 0 where
  done : Edits [] [] 0
  delete : (x : String) {xs ys : List String} {n : ℕ} → Edits xs ys n → Edits (x ∷ xs) ys (suc n)
  insert : (y : String) {xs ys : List String} {n : ℕ} → Edits xs ys n → Edits xs (y ∷ ys) (suc n)
  replace :
      (x y : String) {xs ys : List String} {n : ℕ} → Edits xs ys n → Edits (x ∷ xs) (y ∷ ys) (suc n)
  keep :
      (x y : String) {xs ys : List String} {n : ℕ}
      → x ≡ y
      → Edits xs ys n
      → Edits (x ∷ xs) (y ∷ ys) n

-- The number is one of edits, and the least one.
pub record IsDistance (xs ys : List String) (n : ℕ) : Type 0 where
  pub reached : Edits xs ys n
  pub least : (m : ℕ) → Edits xs ys m → n ≤ m

rev_append : List String → List String → List String
rev_append [] ys = ys
rev_append (x ∷ xs) ys = rev_append xs (x ∷ ys)

rev_append-back : (xs ys : List String) → rev_append (rev_append xs ys) [] ≡ rev_append ys xs
unfolding rev_append
rev_append-back [] ys = refl
rev_append-back (x ∷ xs) ys = rev_append-back xs (x ∷ ys)

moved_suc : {xs ys : List String} (n m : ℕ) → Edits xs ys (n + suc m) → Edits xs ys (suc n + m)
moved_suc {xs} {ys} n m e = subst (Edits xs ys) (omega arith) e

-- edits of two texts, backwards, before those of two others
backwards :
    {xs ys : List String} (n : ℕ) (us vs : List String) (m : ℕ)
    → Edits xs ys n
    → Edits us vs m
    → Edits (rev_append xs us) (rev_append ys vs) (n + m)
unfolding rev_append
backwards n us vs m done f = subst (Edits us vs) (omega arith) f
backwards n us vs m (delete x {n = k} e) f =
    moved_suc k m (backwards k (x ∷ us) vs (suc m) e (delete x f))
backwards n us vs m (insert y {n = k} e) f =
    moved_suc k m (backwards k us (y ∷ vs) (suc m) e (insert y f))
backwards n us vs m (replace x y {n = k} e) f =
    moved_suc k m (backwards k (x ∷ us) (y ∷ vs) (suc m) e (replace x y f))
backwards n us vs m (keep x y same e) f = backwards n (x ∷ us) (y ∷ vs) m e (keep x y same f)

IsDistance-empty : (ys : List String) → IsDistance [] ys (length ys)
IsDistance-empty ys = record { reached = inserts ys; least = all_inserts ys }
  where
    inserts : (ys : List String) → Edits [] ys (length ys)
    inserts [] = done
    inserts (y ∷ ys) = insert y (inserts ys)

    all_inserts : (ys : List String) (m : ℕ) → Edits [] ys m → length ys ≤ m
    all_inserts [] m e = omega arith
    all_inserts (_ ∷ ys) m (insert y {n = k} e) = let rest = all_inserts ys k e in omega arith

IsDistance-no_words : (xs : List String) → IsDistance xs [] (length xs)
IsDistance-no_words xs = record { reached = deletes xs; least = all_deletes xs }
  where
    deletes : (xs : List String) → Edits xs [] (length xs)
    deletes [] = done
    deletes (x ∷ xs) = delete x (deletes xs)

    all_deletes : (xs : List String) (m : ℕ) → Edits xs [] m → length xs ≤ m
    all_deletes [] m e = omega arith
    all_deletes (_ ∷ xs) m (delete x {n = k} e) = let rest = all_deletes xs k e in omega arith

abbrev cell : String → String → ℕ → ℕ → ℕ → ℕ
cell r h diagonal above left = min (min (above + 1) (left + 1)) (diagonal + cost r h)

substituted :
    (r h : String) (xs ys : List String) (n : ℕ)
    → Edits xs ys n
    → Edits (r ∷ xs) (h ∷ ys) (n + cost r h)
substituted r h xs ys n e = elim (Bool-cases (str_eq r h)) [
  | inl same ↦
      rw same (subst (Edits (r ∷ xs) (h ∷ ys)) (omega arith) (keep r h ((eq_iff r h).0 same) e))
  | inr other ↦ rw other (subst (Edits (r ∷ xs) (h ∷ ys)) (omega arith) (replace r h e))
]

cost-same : (r h : String) → r ≡ h → cost r h ≡ 0
cost-same r h e = rw e (rw (str_eq_refl h) refl)

min_of : (P : ℕ → Type 0) (a b : ℕ) → P a → P b → P (min a b)
min_of P a b p q = min_cases a b (P (min a b)) (λ _ e. subst P (sym e) p) (λ _ e. subst P (sym e) q)

-- the least of three ways to come to a cell
cell-IsDistance :
    (r h : String) (xs ys : List String) (diagonal above left : ℕ)
    → IsDistance xs ys diagonal
    → IsDistance xs (h ∷ ys) above
    → IsDistance (r ∷ xs) ys left
    → IsDistance (r ∷ xs) (h ∷ ys) (cell r h diagonal above left)
cell-IsDistance r h xs ys diagonal above left d a l = record {
  reached =
      min_of (Edits (r ∷ xs) (h ∷ ys)) (min (above + 1) (left + 1)) (diagonal + cost r h)
        (min_of (Edits (r ∷ xs) (h ∷ ys)) (above + 1) (left + 1)
          (add_one above (delete r a.reached)) (add_one left (insert h l.reached)))
        (substituted r h xs ys diagonal d.reached);
  least = below;
}
  where
    add_one : (n : ℕ) → Edits (r ∷ xs) (h ∷ ys) (suc n) → Edits (r ∷ xs) (h ∷ ys) (n + 1)
    add_one n e = subst (Edits (r ∷ xs) (h ∷ ys)) (omega arith) e

    below : (m : ℕ) → Edits (r ∷ xs) (h ∷ ys) m → cell r h diagonal above left ≤ m
    below m (delete _ {n = k} e) = let b = a.least k e in omega arith
    below m (insert _ {n = k} e) = let b = l.least k e in omega arith
    below m (replace _ _ {n = k} e) = let b = d.least k e in ground arith
    below m (keep _ _ same e) = let b = d.least m e in let z = cost-same r h same in omega arith

-- A row of the table, for a read part of the hypothesis and the words after it: one distance for each
-- of its parts.
abbrev IsRow : List String → List String → List String → List ℕ → Type 0
IsRow xs ys [] (n ∷ []) = IsDistance xs ys n
IsRow xs ys (h ∷ hyp) (n ∷ rest) = IsDistance xs ys n × IsRow xs (h ∷ ys) hyp rest
IsRow xs ys hyp row = ⊥

IsRow-fill :
    (r : String) (xs ys hyp : List String) (prev : List ℕ) (left : ℕ)
    → IsRow xs ys hyp prev
    → IsDistance (r ∷ xs) ys left
    → IsRow (r ∷ xs) ys hyp (left ∷ fill_row r hyp prev left)
unfolding fill_row
IsRow-fill r xs ys [] prev left row l = l
IsRow-fill r xs ys (h ∷ []) (d ∷ a ∷ []) left (diagonal, above) l =
    (l, cell-IsDistance r h xs ys d a left diagonal above l)
IsRow-fill r xs ys (h ∷ k ∷ hyp) (d ∷ a ∷ prev) left (diagonal, above) l = (
  l,
  IsRow-fill r xs (h ∷ ys) (k ∷ hyp) (a ∷ prev) (cell r h d a left) above
      (cell-IsDistance r h xs ys d a left diagonal above.0 l),
)
IsRow-fill r xs ys (h ∷ hyp) [] left row l = absurd row
IsRow-fill r xs ys (h ∷ []) (d ∷ []) left (diagonal, above) l = absurd above
IsRow-fill r xs ys (h ∷ k ∷ hyp) (d ∷ []) left (diagonal, above) l = absurd above
IsRow-fill r xs ys (h ∷ []) (d ∷ a ∷ b ∷ prev) left (diagonal, above) l = absurd above

IsRow-fill_rows :
    (ref xs hyp : List String) (prev : List ℕ)
    → IsRow xs [] hyp prev
    → IsRow (rev_append ref xs) [] hyp (fill_rows (suc (length xs)) ref hyp prev)
unfolding fill_rows rev_append
IsRow-fill_rows [] xs hyp prev row = row
IsRow-fill_rows (r ∷ ref) xs hyp prev row =
    IsRow-fill_rows ref (r ∷ xs) hyp (suc (length xs) ∷ fill_row r hyp prev (suc (length xs)))
      (IsRow-fill r xs [] hyp prev (suc (length xs)) row (IsDistance-no_words (r ∷ xs)))

IsRow-count : (ys hyp : List String) → IsRow [] ys hyp (count_row (length ys) hyp)
unfolding count_row
IsRow-count ys [] = IsDistance-empty ys
IsRow-count ys (h ∷ hyp) = (IsDistance-empty ys, IsRow-count (h ∷ ys) hyp)

IsDistance-last :
    (xs ys hyp : List String) (row : List ℕ)
    → IsRow xs ys hyp row
    → IsDistance xs (rev_append hyp ys) (last row)
unfolding last rev_append
IsDistance-last xs ys [] (n ∷ []) row = row
IsDistance-last xs ys (h ∷ hyp) (n ∷ m ∷ rest) row =
    IsDistance-last xs (h ∷ ys) hyp (m ∷ rest) row.1
IsDistance-last xs ys [] [] row = absurd row
IsDistance-last xs ys [] (n ∷ m ∷ rest) row = absurd row
IsDistance-last xs ys (h ∷ hyp) [] row = absurd row
IsDistance-last xs ys (h ∷ []) (n ∷ []) row = absurd row.1
IsDistance-last xs ys (h ∷ k ∷ hyp) (n ∷ []) row = absurd row.1

turned :
    (xs ys : List String) (n : ℕ) → Edits xs ys n → Edits (rev_append xs []) (rev_append ys []) n
turned xs ys n e =
    subst (Edits (rev_append xs []) (rev_append ys [])) (omega arith) (backwards n [] [] 0 e done)

turned_back :
    (xs ys : List String) (n : ℕ) → Edits (rev_append xs []) (rev_append ys []) n → Edits xs ys n
unfolding rev_append
turned_back xs ys n e =
    subst (λ us. Edits us ys n) (rev_append-back xs [])
      (subst (λ vs. Edits (rev_append (rev_append xs []) []) vs n) (rev_append-back ys [])
        (turned (rev_append xs []) (rev_append ys []) n e))

-- The errors that the word error rate counts are the fewest words that are deleted, inserted or replaced
-- on any way from the reference to the hypothesis: there are edits with that number, and none with fewer.
pub errors_minimal : (ref hyp : List String) → IsDistance ref hyp (errors ref hyp)
unfolding errors
errors_minimal ref hyp =
    let row = IsRow-fill_rows ref [] hyp (count_row 0 hyp) (IsRow-count [] hyp) in
    let d : IsDistance (rev_append ref []) (rev_append hyp []) (errors ref hyp) =
      IsDistance-last (rev_append ref []) [] hyp (fill_rows 1 ref hyp (count_row 0 hyp)) row in
    record {
      reached = turned_back ref hyp (errors ref hyp) d.reached;
      least = λ m e. d.least m (turned ref hyp m e);
    }
