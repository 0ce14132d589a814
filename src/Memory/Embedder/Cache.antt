-- ===== src/Memory/Embedder/Cache.antt =====
-- services/memory-service/app/retrieval/embedder.py: the cached embedder against the registry.
use sutram.Prelude.{
  ◌≡◌, refl, ap, sym, ◌∙◌, List, [], ◌∷◌, ◌++◌, length, length-append, Text, text_eq, text_eq_iff,
  codes, Result, ok, err, some, arith, All, Option-cases, Bool-cases, inl, inr, suc,
}
use sutram.Embedding.{EmbedError, embed_texts}
use sutram.Memory.Embedder.{Embedder, cache_key, first, embed, store, embed_missing, embed_cached}

-- A digest of 64 characters ends every key, so that equal keys have equal models and digests.
append_inj : (m n : Text) (s t : Text) → length s ≡ length t → m ++ s ≡ n ++ t → (m ≡ n) × (s ≡ t)
append_inj [] [] s t l h = (refl, h)
append_inj [] (b ∷ n) s t l h = let e = ap length h in ground (arith, e, l, length-append n t)
append_inj (a ∷ m) [] s t l h = let e = ap length h in ground (arith, e, l, length-append m s)
append_inj (a ∷ m) (b ∷ n) s t l h =
    let rest : m ++ s ≡ n ++ t = cc h in
    let both = append_inj m n s t l rest in (cc (h, both.0), both.1)

append_cancel : (p : Text) (s t : Text) → p ++ s ≡ p ++ t → s ≡ t
append_cancel [] s t h = h
append_cancel (a ∷ p) s t h = append_cancel p s t (cc h)

cache_key_inj :
    (digest : Text → Text) (m n a b : Text)
    → ((t : Text) → length (digest t) ≡ 64)
    → cache_key digest m a ≡ cache_key digest n b
    → (m ≡ n) × (digest a ≡ digest b)
unfolding cache_key
cache_key_inj digest m n a b len h =
    let rest = append_cancel (codes "embedding:") _ _ h in
    let both =
      append_inj m n (codes ":" ++ digest a) (codes ":" ++ digest b) (ap suc (len a ∙ sym (len b)))
        rest in
    (both.0, append_cancel (codes ":") _ _ both.1)

-- What the application and the passing of time do to the cache: a request to embed a text with a
-- model, and a key that Redis drops.
pub data CacheEvent : Type 0 where
  request : Text → Text → CacheEvent
  expired : Text → CacheEvent

module _ {Db World Vector Failure : Type 0} (service : Embedder Db World Vector Failure) where
  -- The answers to the requests, in order.
  unfoldable pub serve : List CacheEvent → Db × World → List (Result (EmbedError Failure) Vector)
  serve [] s = []
  serve (request text model ∷ events) s =
      let (answer, s') = embed service text model s in answer ∷ serve events s'
  serve (expired key ∷ events) (d, w) = serve events (service.redis.delete key d, w)

  -- The requests without a cache: `oracle text model` is what the provider answers.
  unfoldable pub uncached :
      (Text → Text → Result (EmbedError Failure) Vector)
      → List CacheEvent
      → List (Result (EmbedError Failure) Vector)
  uncached oracle [] = []
  uncached oracle (request text model ∷ events) = oracle text model ∷ uncached oracle events
  uncached oracle (expired key ∷ events) = uncached oracle events

  unfoldable pub IsAsked : (Text → Type 0) → CacheEvent → Type 0
  IsAsked Asked (request text model) = Asked text
  IsAsked Asked (expired key) = Unit

  -- What is cached for an asked text is what the provider answers.
  unfoldable pub IsCoherent :
      (Text → Type 0) → (Text → Text → Result (EmbedError Failure) Vector) → Db → Type 0
  IsCoherent Asked oracle d =
      (text model cached : Text)
      → Asked text
      → service.redis.get (cache_key service.digest model text) d ≡ some cached
      → service.loads cached ≡ oracle text model

module _ {Db World Vector Failure : Type 0} (service : Embedder Db World Vector Failure)
    (Asked : Text → Type 0) (oracle : Text → Text → Result (EmbedError Failure) Vector)
    (sized : (t : Text) → length (service.digest t) ≡ 64)
    (apart : (a b : Text) → Asked a → Asked b → service.digest a ≡ service.digest b → a ≡ b)
    (loads-dumps : (v : Vector) → service.loads (service.dumps v) ≡ ok v)
    (answers : (text model : Text) (w : World)
      → first (embed_texts service.registry (text ∷ []) model w).0 ≡ oracle text model) where
  set_ex-IsCoherent :
      (text model : Text) (v : Vector) (d : Db)
      → Asked text
      → oracle text model ≡ ok v
      → IsCoherent service Asked oracle d
      → IsCoherent service Asked oracle (
          service.redis.set_ex
            (cache_key service.digest model text)
            (service.dumps v)
            service.ttl
            d)
  unfolding IsCoherent
  set_ex-IsCoherent text model v d asked o c text' model' cached asked' found =
      let key = cache_key service.digest model text in
      let key' = cache_key service.digest model' text' in
      let read = service.redis.get-set_ex key key' (service.dumps v) service.ttl d in
      elim (Bool-cases (text_eq key key')) [
        | inl e ↦
            let keys =
              cache_key_inj service.digest model model' text text' sized
                ((text_eq_iff key key').0 e) in
            let texts = apart text text' asked asked' keys.1 in
            let stored : some (service.dumps v) ≡ some cached = ground (arith, read, found, e) in
            let value : service.dumps v ≡ cached = cc stored in
            cc (value, loads-dumps v, o, texts, keys.0)
        | inr e ↦ c text' model' cached asked' (ground (arith, read, found, e))
      ]

  store-oracle :
      (text model : Text) (answer : Result (EmbedError Failure) Vector) (s : Db × World)
      → Asked text
      → answer ≡ oracle text model
      → IsCoherent service Asked oracle s.0
      → ((store service (cache_key service.digest model text) answer s).0 ≡ oracle text model)
        × IsCoherent service Asked oracle
            (store service (cache_key service.digest model text) answer s).1.0
  unfolding store
  store-oracle text model (ok v) (d, w) asked e c =
      (e, set_ex-IsCoherent text model v d asked (sym e) c)
  store-oracle text model (err f) s asked e c = (e, c)

  pub embed-oracle :
      (text model : Text) (s : Db × World)
      → Asked text
      → IsCoherent service Asked oracle s.0
      → ((embed service text model s).0 ≡ oracle text model)
        × IsCoherent service Asked oracle (embed service text model s).1.0
  unfolding embed embed_cached embed_missing IsCoherent
  embed-oracle text model (d, w) asked c =
      elim (Option-cases (service.redis.get (cache_key service.digest model text) d)) [
        | inl e ↦ rw e (store-oracle text model _ (d, _) asked (answers text model w) c)
        | inr (cached, e) ↦ rw e (c text model cached asked e, c)
      ]

  delete-IsCoherent :
      (key : Text) (d : Db)
      → IsCoherent service Asked oracle d
      → IsCoherent service Asked oracle (service.redis.delete key d)
  unfolding IsCoherent
  delete-IsCoherent key d c text model cached asked found =
      let read = service.redis.get-delete key (cache_key service.digest model text) d in
      elim (Bool-cases (text_eq key (cache_key service.digest model text))) [
        | inl e ↦ ground (arith, read, found, e)
        | inr e ↦ c text model cached asked (ground (arith, read, found, e))
      ]

  -- Whatever keys expire in between, every request to the embedder is answered as the provider
  -- answers it, given a cache that agrees with the provider, texts without a collision of SHA-256,
  -- vectors that JSON gives back, and a provider that answers alike every time.
  pub serve-uncached :
      (events : List CacheEvent) (s : Db × World)
      → All (IsAsked service Asked) events
      → IsCoherent service Asked oracle s.0
      → serve service events s ≡ uncached service oracle events
  unfolding serve uncached IsAsked
  serve-uncached [] s asked c = refl
  serve-uncached (request text model ∷ events) s asked c =
      let (same, c') = embed-oracle text model s asked.0 c in
      let rest = serve-uncached events (embed service text model s).1 asked.1 c' in cc (same, rest)
  serve-uncached (expired key ∷ events) (d, w) asked c =
      serve-uncached events (service.redis.delete key d, w) asked.1 (delete-IsCoherent key d c)
