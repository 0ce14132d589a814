-- ===== src/Tests/Searches.antt =====
-- The theorems of the search and the routes of memories at concrete inputs.
use sutram.Prelude.{
  if◌then◌else◌, ℕ, ◌+◌, ◌*◌, ◌-◌, ◌≤◌, min, List, [], ◌∷◌, length, length-take_le, take, All,
  All-take, Bool, true, false, ◌≡◌, refl, ◌∙◌, inl, Option, none, Text, codes, ltb, ok, err,
  text_eq,
}
use sutram.Prelude.Slices.{pos}
use sutram.Models.{Uuid}
use sutram.Memory.Embedder.{embed, first, cache_key}
use sutram.Embedding.{embed_texts, get}
use sutram.Memory.Embedder.Cache.{IsCoherent, embed-oracle}
use sutram.Memory.Tables.{MemoryItem, Tables, Sql}
use sutram.Memory.Reranker.{Math, ScoredCandidate, rerank}
use sutram.Memory.Searcher.{Searcher, search, type_filter}
use sutram.Memory.Searcher.Sources.{IsFound}
use sutram.Memory.Searcher.Answers.{search-IsFound}
use sutram.Memory.QueryCache.{query_prefix, invalidate_query_cache}
use sutram.Memory.QueryCache.Invalidation.{IsInvalidated, invalidate_query_cache-IsInvalidated}
use sutram.Memory.Schemas.{
  State, Service, MemoryItemCreate, MemorySearchRequest, MemorySearchResult, not_found,
}
use sutram.Memory.Routes.{find_item, store_memory, get_memory_item, forget_memory}
use sutram.Memory.Routes.Items.{get_memory_item-store_memory, forget_memory-get_memory_item}
use sutram.Memory.SearchRoute.{memory_types_of, row_by_id, query_key, search_memory}
use sutram.Memory.SearchRoute.Caching.{search_memory-again}
use sutram.Tests.Entries.{Entries, no_entries, redis, scans, put, lookup}
use sutram.Tests.Memory.{
  embedder, small, red, Asked, oracle, sized, apart, answers, empty-IsCoherent, digest,
}

abbrev pub math : Math ℕ
math = record {
  literal = λ s. 1;
  infinity = 0;
  add = λ a b. a + b;
  mul = λ a b. a * b;
  div = λ a b. a;
  negate = λ a. a;
  exp = λ a. a;
  log = λ a. a;
  of_int = λ n. n;
  smaller = min;
  lt = ltb;
}

abbrev pub sql : Sql ℕ
sql = record {
  distinct = λ values. values;
  nearest = λ key limit rows. take limit rows;
  distinct-All = λ P values a. a;
  nearest-All = λ P key limit rows a. All-take P limit rows a;
  nearest-length = λ key limit rows. length-take_le limit rows;
}

abbrev pub searcher : Searcher Entries ℕ ℕ Text ℕ ℕ ℕ
searcher = record {
  embedder = embedder;
  math = math;
  seconds = λ now t. now;
  clock = λ i. i;
  sql = sql;
  subtract = λ a b. a - b;
  distance = λ a b. (a - b) + (b - a);
  no_metadata = 0;
  candidate_limit = 50;
  half_life_days = 30;
}

abbrev pub row : Text → Text → Text → Bool → MemoryItem ℕ ℕ ℕ
row id tenant_id content compressed = record {
  id = id;
  tenant_id = tenant_id;
  memory_type = codes "episodic";
  content = content;
  embedding = length content;
  embedding_model = small;
  extra_metadata = 0;
  created_at = 1;
  accessed_at = 1;
  access_count = 0;
  retention_policy = codes "90d";
  compressed = compressed;
}

abbrev pub tables : Tables ℕ ℕ ℕ
tables = record {
  items =
      row (codes "1") (codes "t") red false
      ∷ row (codes "2") (codes "t") (codes "old") true
      ∷ row (codes "3") (codes "u") (codes "other") false
      ∷ [];
  summaries =
      record {
        id = codes "s";
        tenant_id = codes "t";
        summary = codes "cars";
        original_ids = codes "2" ∷ [];
        embedding = 4;
        embedding_model = small;
        created_at = 1;
      }
      ∷ [];
}

pub embed-red :
    (model : Text) (s : Entries × ℕ)
    → model ≡ small
    → IsCoherent embedder Asked oracle s.0
    → ((embed embedder red model s).0 ≡ ok 7)
      × IsCoherent embedder Asked oracle (embed embedder red model s).1.0
embed-red model s known ready =
    let (e, c) =
      embed-oracle embedder Asked oracle sized apart (λ v. refl) answers red model s (inl refl)
        ready in
    let seven : oracle red model ≡ ok 7 = rw known refl in (e ∙ seven, c)

search-IsFound_example :
    (results : List (ScoredCandidate ℕ ℕ ℕ)) × ((search searcher tables red
        (codes "t")
        (pos 5)
        none
        (no_entries, 0)).0
      ≡ ok results)
    × All
        (λ r. IsFound searcher tables red (codes "t") (λ m. 7) (type_filter none) r.candidate)
        results
    × (length results ≤ 5)
search-IsFound_example =
    search-IsFound searcher tables red (codes "t") (λ m. 7) (λ m. m ≡ small)
      (λ s. IsCoherent embedder Asked oracle s.0) (pos 5) none (no_entries, 0) embed-red
      (refl, (refl, (refl, tt))) (refl, tt) empty-IsCoherent

abbrev cached : Entries
cached =
    put (codes "memory:query:t:1") (codes "x") (put (codes "embedding:1") (codes "y") no_entries)

invalidate_query_cache-IsInvalidated_example :
    IsInvalidated redis scans
      (query_prefix (codes "t"))
      cached
      (invalidate_query_cache redis scans (codes "t") cached)
invalidate_query_cache-IsInvalidated_example =
    invalidate_query_cache-IsInvalidated redis scans (codes "t") cached

abbrev pub found : MemorySearchResult ℕ ℕ ℕ ℕ
found = record { item = row (codes "1") (codes "t") red false; score = 2; similarity = 1 }

abbrev pub service : Service Entries ℕ ℕ Text ℕ ℕ ℕ
service = record {
  searcher = searcher;
  scans = scans;
  now = 5;
  uuid4 = λ w. codes "new";
  latency_ms = λ w. w;
  default_embedding_model = small;
  query_cache_ttl_seconds = 300;
  round4 = λ x. x;
  dumps = λ results. codes "results";
  loads = λ t. found ∷ [];
}

abbrev pub state : State Entries ℕ ℕ ℕ ℕ ℕ
state = record { tables = tables; cache = no_entries; world = 0; events = []; background = [] }

abbrev pub body : MemorySearchRequest
body = record { query = red; top_k = pos 5; memory_types = none }

answered :
    (search_memory service body (codes "t") state).0
    ≡ ok (record { results = found ∷ []; cache_hit = false; latency_ms = 1 })
unfolding search_memory search rerank embed first embed_texts get cache_key memory_types_of
    row_by_id
answered = refl

-- The same query with another `top_k`.
search_memory-again_example :
    (search_memory service
      (record body { top_k = pos 3 })
      (codes "t")
      (search_memory service body (codes "t") state).1).0
    ≡ ok (record {
      results = found ∷ [];
      cache_hit = true;
      latency_ms = service.latency_ms (search_memory service body (codes "t") state).1.world;
    })
search_memory-again_example =
    search_memory-again service body (codes "t") state
      (record { results = found ∷ []; cache_hit = false; latency_ms = 1 }) (pos 3) refl answered

abbrev memory : MemoryItemCreate ℕ
memory = record {
  content = red;
  memory_type = codes "semantic";
  extra_metadata = 0;
  retention_policy = codes "90d";
}

embedded_red : (embed embedder red small (no_entries, 0)).0 ≡ ok 7
unfolding embed first embed_texts get cache_key
embedded_red = refl

get_memory_item-store_memory_example :
    (item : MemoryItem ℕ ℕ ℕ) × ((store_memory service memory (codes "t") state).0 ≡ ok item)
    × (item.content ≡ red)
    × ((get_memory_item service item.id
          (codes "t")
          (store_memory service memory (codes "t") state).1).0
        ≡ ok item)
    × ((query : Text) (types : Option (List Text))
        → lookup
            (query_key digest (codes "t") query types)
            (store_memory service memory (codes "t") state).1.cache.values
          ≡ none)
get_memory_item-store_memory_example =
    get_memory_item-store_memory service memory (codes "t") state 7 embedded_red

read_first :
    (get_memory_item service (codes "1") (codes "t") state).0
    ≡ ok (row (codes "1") (codes "t") red false)
unfolding get_memory_item find_item
read_first = refl

forget_memory-get_memory_item_example :
    ((forget_memory service (codes "1") (codes "t") state).0 ≡ ok tt)
    × ((other tenant : Uuid)
        → (get_memory_item service other tenant
            (forget_memory service (codes "1") (codes "t") state).1).0
          ≡ (if text_eq (codes "1") other
              then err not_found
              else (get_memory_item service other tenant state).0))
forget_memory-get_memory_item_example =
    forget_memory-get_memory_item service (codes "1") (codes "t") state
      (row (codes "1") (codes "t") red false) read_first
