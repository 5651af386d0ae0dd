-- ===== src/TextQuality/Dominance.antt =====
-- Which texts are taken for degenerate.
use pipecat_local_stt_server.Prelude.{
  ℕ, ◌*◌, ◌≤◌, ◌<◌, String, Bool, true, false, some, List, [], ◌∷◌, ◌≡◌, refl, sym, ◌∙◌, ap, subst,
  arith, ltb, ltb→lt, ltb→le, str_eq, eq_iff, length, if_rule, Bool-cases, inl, inr,
}
use pipecat_local_stt_server.TextQuality.{
  count_of, Common, better, most_common_from, dominant_unigram, Thresholds, is_dominated,
  is_degenerate,
}

better_lem :
    (x : String) (tokens : List String) (b : Common)
    → b.count ≡ count_of b.token tokens
    → ((better x (count_of x tokens) b).count
        ≡ count_of (better x (count_of x tokens) b).token tokens)
      × (count_of x tokens ≤ (better x (count_of x tokens) b).count)
      × (b.count ≤ (better x (count_of x tokens) b).count)
better_lem x tokens b h = elim (Bool-cases (ltb b.count (count_of x tokens))) [
  | inl more ↦ rw more (refl, omega arith, omega (arith, ltb→lt _ _ more))
  | inr less ↦ rw less (h, ltb→le _ _ less, omega arith)
]

-- the result is a count, no less than the first one, and than that of any token passed
most_common_lem :
    (tokens xs : List String) (b : Common)
    → b.count ≡ count_of b.token tokens
    → ((most_common_from tokens xs b).count ≡ count_of (most_common_from tokens xs b).token tokens)
      × (b.count ≤ (most_common_from tokens xs b).count)
      × ((t : String)
          → 0 < count_of t xs
          → count_of t tokens ≤ (most_common_from tokens xs b).count)
unfolding most_common_from count_of
most_common_lem tokens [] b h = (h, omega arith, λ t some_left. omega (arith, some_left))
most_common_lem tokens (x ∷ xs) b h =
    let step = better_lem x tokens b h in
    let rest = most_common_lem tokens xs (better x (count_of x tokens) b) step.0 in
    (
      rest.0,
      omega (arith, step.2, rest.1),
      λ t some_left. elim (Bool-cases (str_eq x t)) [
        | inl same ↦
            let e : x ≡ t = (eq_iff x t).0 same in
            subst
              (λ (u : String).
                count_of u tokens
                ≤ (most_common_from tokens xs (better x (count_of x tokens) b)).count)
              e (omega (arith, step.1, rest.1))
        | inr other ↦ rest.2 t (ground arith)
      ],
    )

dominant : String → List String → Common
dominant y ys = most_common_from (y ∷ ys) ys (record { token = y; count = count_of y (y ∷ ys) })

-- the dominant token has the greatest count
dominant_lem :
    (y : String) (ys : List String)
    → ((dominant y ys).count ≡ count_of (dominant y ys).token (y ∷ ys))
      × ((t : String) → count_of t (y ∷ ys) ≤ (dominant y ys).count)
unfolding dominant count_of
dominant_lem y ys =
    let found =
      most_common_lem (y ∷ ys) ys (record { token = y; count = count_of y (y ∷ ys) }) refl in
    (
      found.0,
      λ t. elim (Bool-cases (str_eq y t)) [
        | inl same ↦
            subst (λ (u : String). count_of u (y ∷ ys) ≤ (dominant y ys).count)
              ((eq_iff y t).0 same) found.1
        | inr other ↦ elim (Bool-cases (ltb 0 (count_of t ys))) [
          | inl some_left ↦ found.2 t (ltb→lt _ _ some_left)
          | inr none_left ↦
              let gone = ltb→le 0 (count_of t ys) none_left in rw other (omega (arith, gone))
        ]
      ],
    )

top_token :
    (y : String) (ys : List String) (t : String)
    → ((u : String) → str_eq u t ≡ false → count_of u (y ∷ ys) < count_of t (y ∷ ys))
    → (dominant y ys).token ≡ t
top_token y ys t alone =
    let c = dominant y ys in
    let top = dominant_lem y ys in
    elim (Bool-cases (str_eq c.token t)) [
      | inl same ↦ (eq_iff c.token t).0 same
      | inr other ↦
          let fewer = alone c.token other in
          let most = top.1 t in absurd (omega (arith, fewer, most, top.0))
    ]

few_enough : (n m : ℕ) → ltb n m ≡ true → m ≤ n → ⊥
few_enough n m few enough = ground arith

module _ (th : Thresholds) (is_word : String → Bool) where
  low_clean :
      (total : ℕ) (c : Common)
      → c.count * th.ratio_den ≤ th.ratio_num * total
      → is_dominated th is_word total (some c) ≡ false
  low_clean total c low = ground arith

  high_flagged :
      (total : ℕ) (c : Common)
      → th.ratio_num * total < c.count * th.ratio_den
      → is_word c.token ≡ true
      → is_dominated th is_word total (some c) ≡ true
  high_flagged total c high word = ground arith

  no_tokens : th.ratio_num * 0 < 0 * th.ratio_den → ⊥
  no_tokens high = omega (arith, high)

  -- A text none of whose tokens has more than the threshold's share is not degenerate. A text
  -- with enough tokens is degenerate if a word has more than that share and more occurrences than
  -- every other token.
  pub degenerate_exact :
      (tokens : List String)
      → (((t : String) → count_of t tokens * th.ratio_den ≤ th.ratio_num * length tokens)
          → is_degenerate th is_word tokens ≡ false)
        × ((t : String)
            → th.min_tokens ≤ length tokens
            → th.ratio_num * length tokens < count_of t tokens * th.ratio_den
            → is_word t ≡ true
            → ((u : String) → str_eq u t ≡ false → count_of u tokens < count_of t tokens)
            → is_degenerate th is_word tokens ≡ true)
  unfolding is_degenerate dominant_unigram dominant
  degenerate_exact [] = (λ low. ground arith, λ t enough high word alone. absurd (no_tokens high))
  degenerate_exact (y ∷ ys) =
      let top = dominant_lem y ys in
      let c = dominant y ys in
      let total = length (y ∷ ys) in
      (
        λ low.
            if_rule (λ b. b ≡ false) (ltb (length (y ∷ ys)) th.min_tokens) _ _ (λ _. refl)
              λ _.
                low_clean total c
                  (subst (λ n. n * th.ratio_den ≤ th.ratio_num * total) (sym top.0) (low c.token)),
        λ t enough high word alone.
            let same : c.token ≡ t = top_token y ys t alone in
            if_rule (λ b. b ≡ true) (ltb (length (y ∷ ys)) th.min_tokens) _ _
              (λ few. absurd (few_enough _ _ few enough))
              λ _.
                high_flagged total c
                  (subst (λ n. th.ratio_num * total < n * th.ratio_den)
                    (sym (top.0 ∙ ap (λ (u : String). count_of u (y ∷ ys)) same)) high)
                  (subst (λ (u : String). is_word u ≡ true) (sym same) word),
      )
