-- ===== src/Tests/Isolation.antt =====
-- A search over two tenants and a summary.
use sutram.Prelude.{ℕ, map, All, ◌≡◌, refl, ok, codes}
use sutram.Prelude.Strings.{IsDistinct}
use sutram.Memory.Embedder.Cache.{IsCoherent}
use sutram.Memory.Schemas.{MemorySearchResponse}
use sutram.Memory.SearchRoute.{search_memory}
use sutram.Memory.SearchRoute.Isolation.{IsOwn, search_memory-IsOwn}
use sutram.Tests.Memory.{embedder, small, Asked, oracle, empty-IsCoherent}
use sutram.Tests.Searches.{tables, service, state, body, embed-red}

tables-IsDistinct : IsDistinct (map (λ i. i.id) tables.items)
unfolding IsDistinct
tables-IsDistinct = ((refl, (refl, tt)), ((refl, tt), (tt, tt)))

search_memory-IsOwn_example :
    (response : MemorySearchResponse ℕ ℕ ℕ ℕ) × ((search_memory service body (codes "t") state).0
      ≡ ok response)
    × All (IsOwn tables (codes "t")) response.results
search_memory-IsOwn_example =
    search_memory-IsOwn service (λ m. 7) (λ m. m ≡ small)
      (λ s. IsCoherent embedder Asked oracle s.0) body (codes "t") state embed-red
      (refl, (refl, (refl, tt))) (refl, tt) empty-IsCoherent tables-IsDistinct
      ((refl, (refl, (refl, tt))), tt) refl
