-- ===== src/Tests/Rankings.antt =====
-- The theorems of the ranking at three candidates.
use sutram.Prelude.{ℕ, List, [], ◌∷◌, ◌++◌, length, ◌≡◌, Text, codes, arith}
use sutram.Prelude.Slices.{pos}
use sutram.Memory.Reranker.{CandidateRow, ScoredCandidate, score_all, rerank}
use sutram.Memory.Reranker.Ranking.{IsDescending, rerank-top}
use sutram.Tests.Memory.{small}
use mathlib.Core.List.{Perm}
use sutram.Tests.Searches.{math}

abbrev candidate : Text → ℕ → ℕ → CandidateRow ℕ ℕ ℕ
candidate id similarity count = record {
  id = id;
  content = id;
  metadata = 0;
  embedding_model = small;
  accessed_at = 1;
  access_count = count;
  similarity = similarity;
  memory_type = codes "semantic";
}

abbrev candidates : List (CandidateRow ℕ ℕ ℕ)
candidates = candidate (codes "a") 3 0 ∷ candidate (codes "b") 9 2 ∷ candidate (codes "c") 5 1 ∷ []

rerank-top_example :
    (rest : List (ScoredCandidate ℕ ℕ ℕ)) × (length
        (rerank math (λ now t. now) (λ i. i) candidates (pos 2) 30)
      ≡ 2)
    × Perm
        (rerank math (λ now t. now) (λ i. i) candidates (pos 2) 30 ++ rest)
        (score_all math (λ now t. now) (λ i. i) 30 0 candidates)
    × IsDescending math (rerank math (λ now t. now) (λ i. i) candidates (pos 2) 30 ++ rest)
rerank-top_example =
    rerank-top math (λ a b h. ground (arith, h)) (λ a b c h k. ground (arith, h, k)) (λ now t. now)
      (λ i. i) candidates 2 30
