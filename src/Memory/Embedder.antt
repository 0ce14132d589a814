-- ===== src/Memory/Embedder.antt =====
-- services/memory-service/app/retrieval/embedder.py: the cache of embeddings in Redis. SHA-256 and
-- json.dumps and json.loads are parameters; the state is the contents of Redis and the state of
-- the services that providers call.
pub mod Cache
use sutram.Prelude.{ℕ, List, [], ◌∷◌, ◌++◌, Text, codes, Result, ok, err, Option, none, some}
use sutram.Prelude.Program.{Program}
use sutram.Redis.{Redis}
use sutram.Embedding.{EmbedError, index_error, Registry, embed_texts}

-- f"embedding:{model}:{hexdigest}"
unfoldable pub cache_key : (Text → Text) → Text → Text → Text
cache_key digest model text = codes "embedding:" ++ (model ++ (codes ":" ++ digest text))

-- What the Embedder is built with and what it calls.
pub record Embedder (Db World Vector Failure : Type 0) : Type 0 where
  pub registry : Registry World Vector Failure
  pub redis : Redis Db
  pub ttl : ℕ
  pub digest : Text → Text
  pub dumps : Vector → Text
  pub loads : Text → Result (EmbedError Failure) Vector

-- `answer[0]`
unfoldable pub first :
    {A Failure : Type 0} → Result (EmbedError Failure) (List A) → Result (EmbedError Failure) A
first (ok []) = err index_error
first (ok (a ∷ rest)) = ok a
first (err e) = err e

module _ {Db World Vector Failure : Type 0} (service : Embedder Db World Vector Failure) where
  store :
      Text → Result (EmbedError Failure) Vector → Program (EmbedError Failure) (Db × World) Vector
  store key (ok vector) (d, w) =
      (ok vector, (service.redis.set_ex key (service.dumps vector) service.ttl d, w))
  store key (err e) s = (err e, s)

  embed_missing : Text → Text → Program (EmbedError Failure) (Db × World) Vector
  embed_missing text model (d, w) =
      let (answer, w') = embed_texts service.registry (text ∷ []) model w in
      store (cache_key service.digest model text) (first answer) (d, w')

  embed_cached : Text → Text → Option Text → Program (EmbedError Failure) (Db × World) Vector
  embed_cached text model (some cached) s = (service.loads cached, s)
  embed_cached text model none s = embed_missing text model s

  unfoldable pub embed : Text → Text → Program (EmbedError Failure) (Db × World) Vector
  unfolding embed_cached embed_missing store
  embed text model s =
      embed_cached text model (service.redis.get (cache_key service.digest model text) s.0) s
