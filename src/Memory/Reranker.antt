-- ===== src/Memory/Reranker.antt =====
-- services/memory-service/app/retrieval/reranker.py: the composite score and the ranking.
-- Floating-point arithmetic, Python's math module and the clock are parameters.
pub mod Ranking
use sutram.Prelude.{ℕ, ◌+◌, suc, List, [], ◌∷◌, Bool, Text, text_eq, codes, String, if◌then◌else◌}
use sutram.Prelude.Slices.{ℤ, slice_to}

-- `lt a b` is `a < b`; `smaller` is `min`; `literal` reads a numeral of the source.
pub record Math (F : Type 0) : Type 0 where
  pub literal : String → F
  pub infinity : F
  pub add : F → F → F
  pub mul : F → F → F
  pub div : F → F → F
  pub negate : F → F
  pub exp : F → F
  pub log : F → F
  pub of_int : ℕ → F
  pub smaller : F → F → F
  pub lt : F → F → Bool

pub record CandidateRow (F Time Metadata : Type 0) : Type 0 where
  pub id : Text
  pub content : Text
  pub metadata : Metadata
  pub embedding_model : Text
  pub accessed_at : Time
  pub access_count : ℕ
  pub similarity : F
  pub memory_type : Text

pub record ScoredCandidate (F Time Metadata : Type 0) : Type 0 where
  pub score : F
  pub candidate : CandidateRow F Time Metadata

-- `seconds now t` is `(now - t).total_seconds()`.
module _ {F Time : Type 0} (math : Math F) (seconds : Time → Time → F) where
  unfoldable pub recency_score : Time → Time → F → F
  recency_score now accessed_at half_life_days =
      let age_days = math.div (seconds now accessed_at) (math.literal "86400.0") in
      math.exp
        (math.div (math.mul (math.negate age_days) (math.log (math.literal "2"))) half_life_days)

module _ {F : Type 0} (math : Math F) where
  -- `_TYPE_HALF_LIFE.get(memory_type, half_life_days)`
  unfoldable pub effective_half_life : Text → F → F
  effective_half_life memory_type half_life_days =
      if text_eq memory_type (codes "episodic")
      then math.literal "30.0"
      else if text_eq memory_type (codes "semantic")
      then math.infinity
      else if text_eq memory_type (codes "procedural")
      then math.infinity
      else half_life_days

module _ {F Time Metadata : Type 0} (math : Math F) where
  -- `scored.sort(key=score, reverse=True)`: stable, the greatest score first.
  unfoldable pub insert_scored :
      ScoredCandidate F Time Metadata
      → List (ScoredCandidate F Time Metadata)
      → List (ScoredCandidate F Time Metadata)
  insert_scored x [] = x ∷ []
  insert_scored x (y ∷ ys) =
      let rest = insert_scored x ys in if math.lt x.score y.score then y ∷ rest else x ∷ y ∷ ys

  unfoldable pub sort_scored :
      List (ScoredCandidate F Time Metadata) → List (ScoredCandidate F Time Metadata)
  unfolding insert_scored
  sort_scored [] = []
  sort_scored (x ∷ xs) = insert_scored x (sort_scored xs)

-- `clock i` is the time at which the code reads the clock for the candidate at index `i`.
module _ {F Time Metadata : Type 0} (math : Math F) (seconds : Time → Time → F)
    (clock : ℕ → Time) where
  unfoldable pub score_one : ℕ → F → CandidateRow F Time Metadata → F
  unfolding recency_score effective_half_life
  score_one i half_life_days c =
      let rec =
        recency_score math seconds (clock i) c.accessed_at
          (effective_half_life math c.memory_type half_life_days) in
      let freq = math.smaller (math.log (math.of_int (c.access_count + 1))) (math.literal "2.0") in
      math.add
        (math.add (math.mul c.similarity (math.literal "0.6")) (math.mul rec (math.literal "0.3")))
        (math.mul freq (math.literal "0.1"))

  -- The loop of `rerank`, from index `i`.
  unfoldable pub score_all :
      F → ℕ → List (CandidateRow F Time Metadata) → List (ScoredCandidate F Time Metadata)
  unfolding score_one
  score_all half_life_days i [] = []
  score_all half_life_days i (c ∷ cs) =
      record { score = score_one i half_life_days c; candidate = c }
      ∷ score_all half_life_days (suc i) cs

  unfoldable pub rerank :
      List (CandidateRow F Time Metadata) → ℤ → F → List (ScoredCandidate F Time Metadata)
  unfolding sort_scored score_all
  rerank candidates top_k half_life_days =
      slice_to top_k (sort_scored math (score_all half_life_days 0 candidates))
