-- ===== src/Memory/Reranker/Ranking.antt =====
-- services/memory-service/app/retrieval/reranker.py: what `rerank` answers.
use sutram.Prelude.{
  ℕ, min, ◌≡◌, refl, sym, ap, take-drop, length-take, ◌∙◌, List, [], ◌∷◌, ◌++◌, length, drop, true,
  false, All, Bool-cases, inl, inr, arith, suc,
}
use sutram.Prelude.Slices.{pos}
use sutram.Memory.Reranker.{
  Math, CandidateRow, ScoredCandidate, insert_scored, sort_scored, score_all, rerank, suc,
}
use mathlib.Core.List.{Perm}
use mathlib.Core.List.Perm
use mathlib.Core.Path.{subst}

module _ {F Time Metadata : Type 0} (math : Math F) where
  -- No candidate is before one with a greater score.
  unfoldable pub IsDescending : List (ScoredCandidate F Time Metadata) → Type 0
  IsDescending [] = Unit
  IsDescending (x ∷ xs) = All (λ y. math.lt x.score y.score ≡ false) xs × IsDescending xs

  length-insert_scored :
      (x : ScoredCandidate F Time Metadata) (xs : List (ScoredCandidate F Time Metadata))
      → length (insert_scored math x xs) ≡ suc (length xs)
  unfolding insert_scored
  length-insert_scored x [] = refl
  length-insert_scored x (y ∷ ys) = ground (arith, length-insert_scored x ys)

  length-sort_scored :
      (xs : List (ScoredCandidate F Time Metadata)) → length (sort_scored math xs) ≡ length xs
  unfolding sort_scored
  length-sort_scored [] = refl
  length-sort_scored (x ∷ xs) =
      length-insert_scored x (sort_scored math xs) ∙ ap suc (length-sort_scored xs)

  insert_scored-perm :
      (x : ScoredCandidate F Time Metadata) (xs : List (ScoredCandidate F Time Metadata))
      → Perm (insert_scored math x xs) (x ∷ xs)
  unfolding insert_scored
  insert_scored-perm x [] = Perm.rfl
  insert_scored-perm x (y ∷ ys) = elim (Bool-cases (math.lt x.score y.score)) [
    | inl e ↦ rw e (Perm.trans (Perm.cons y (insert_scored-perm x ys)) (Perm.swap x y ys))
    | inr e ↦ rw e Perm.rfl
  ]

  sort_scored-perm : (xs : List (ScoredCandidate F Time Metadata)) → Perm (sort_scored math xs) xs
  unfolding sort_scored
  sort_scored-perm [] = Perm.rfl
  sort_scored-perm (x ∷ xs) =
      Perm.trans (insert_scored-perm x (sort_scored math xs)) (Perm.cons x (sort_scored-perm xs))

  All-insert_scored :
      (P : ScoredCandidate F Time Metadata → Type 0) (x : ScoredCandidate F Time Metadata)
      (xs : List (ScoredCandidate F Time Metadata))
      → P x
      → All P xs
      → All P (insert_scored math x xs)
  unfolding insert_scored
  All-insert_scored P x [] h a = (h, tt)
  All-insert_scored P x (y ∷ ys) h a = elim (Bool-cases (math.lt x.score y.score)) [
    | inl e ↦ rw e (a.0, All-insert_scored P x ys h a.1)
    | inr e ↦ rw e (h, a)
  ]

  pub All-sort_scored :
      (P : ScoredCandidate F Time Metadata → Type 0) (xs : List (ScoredCandidate F Time Metadata))
      → All P xs
      → All P (sort_scored math xs)
  unfolding sort_scored
  All-sort_scored P [] a = tt
  All-sort_scored P (x ∷ xs) a =
      All-insert_scored P x (sort_scored math xs) a.0 (All-sort_scored P xs a.1)

module _ {F Time Metadata : Type 0} (math : Math F)
    (asym : (a b : F) → math.lt a b ≡ true → math.lt b a ≡ false)
    (trans : (a b c : F) → math.lt a b ≡ false → math.lt b c ≡ false → math.lt a c ≡ false) where
  All-below :
      (x y : ScoredCandidate F Time Metadata) (zs : List (ScoredCandidate F Time Metadata))
      → math.lt x.score y.score ≡ false
      → All (λ z. math.lt y.score z.score ≡ false) zs
      → All (λ z. math.lt x.score z.score ≡ false) zs
  All-below x y [] h a = tt
  All-below x y (z ∷ zs) h a = (trans x.score y.score z.score h a.0, All-below x y zs h a.1)

  insert_scored-IsDescending :
      (x : ScoredCandidate F Time Metadata) (xs : List (ScoredCandidate F Time Metadata))
      → IsDescending math xs
      → IsDescending math (insert_scored math x xs)
  unfolding insert_scored IsDescending
  insert_scored-IsDescending x [] d = (tt, tt)
  insert_scored-IsDescending x (y ∷ ys) d = elim (Bool-cases (math.lt x.score y.score)) [
    | inl e ↦ rw e (
      All-insert_scored math _ x ys (asym x.score y.score e) d.0,
      insert_scored-IsDescending x ys d.1,
    )
    | inr e ↦ rw e ((e, All-below x y ys e d.0), d)
  ]

  sort_scored-IsDescending :
      (xs : List (ScoredCandidate F Time Metadata)) → IsDescending math (sort_scored math xs)
  unfolding sort_scored IsDescending
  sort_scored-IsDescending [] = tt
  sort_scored-IsDescending (x ∷ xs) =
      insert_scored-IsDescending x (sort_scored math xs) (sort_scored-IsDescending xs)

  module _ (seconds : Time → Time → F) (clock : ℕ → Time) where
    length-score_all :
        (half_life_days : F) (i : ℕ) (cs : List (CandidateRow F Time Metadata))
        → length (score_all math seconds clock half_life_days i cs) ≡ length cs
    unfolding score_all
    length-score_all h i [] = refl
    length-score_all h i (c ∷ cs) = ap suc (length-score_all h (suc i) cs)

    -- With a `top_k` that is not negative and scores that compare as numbers do, `rerank` answers
    -- as many candidates as `top_k` allows, and with the ones it leaves out they are all the
    -- scored candidates, none before one with a greater score.
    pub rerank-top :
        (candidates : List (CandidateRow F Time Metadata)) (k : ℕ) (half_life_days : F)
        → (rest : List (ScoredCandidate F Time Metadata)) × (length
              (rerank math seconds clock candidates (pos k) half_life_days)
            ≡ min k (length candidates))
          × Perm
              (rerank math seconds clock candidates (pos k) half_life_days ++ rest)
              (score_all math seconds clock half_life_days 0 candidates)
          × IsDescending math (rerank math seconds clock candidates (pos k) half_life_days ++ rest)
    unfolding rerank
    rerank-top candidates k h =
        let scored = score_all math seconds clock h 0 candidates in
        let sorted = sort_scored math scored in
        (
          drop k sorted,
          length-take k sorted
              ∙ ap (min k) (length-sort_scored math scored ∙ length-score_all h 0 candidates),
          subst (λ l. Perm l scored) (sym (take-drop k sorted)) (sort_scored-perm math scored),
          subst (λ l. IsDescending math l) (sym (take-drop k sorted))
              (sort_scored-IsDescending scored),
        )
