-- ===== src/Tests/Memory.antt =====
-- A memory service on natural numbers: a vector is a number, a provider answers the length of a
-- text, and the theorems of the memory service at concrete inputs.
use sutram.Prelude.{
  ℕ, ◌+◌, List, [], ◌∷◌, map, length, All, ◌≡◌, refl, ◌⊎◌, inl, inr, Text, text_eq, codes,
  if◌then◌else◌, Bool-cases, Result, ok, err, zero, suc,
}
use sutram.Embedding.{EmbedError, Provider, Registry, key_error, get, embed_texts}
use sutram.Memory.Embedder.{Embedder, first, cache_key}
use sutram.Memory.Embedder.Cache.{
  CacheEvent, request, expired, serve, uncached, IsAsked, IsCoherent, serve-uncached,
}
use sutram.Tests.Entries.{Entries, no_entries, redis}

abbrev pub provider : Text → Provider ℕ ℕ Text
provider name = record {
  model_name = name;
  embed_texts = λ texts w. (ok (map length texts), w + 1);
}

abbrev pub small : Text
small = codes "small"

abbrev pub providers : Registry ℕ ℕ Text
providers = provider small ∷ []

abbrev pub repeat : ℕ → ℕ → Text
repeat zero c = []
repeat (suc n) c = c ∷ repeat n c

-- A digest that tells two queries apart.
abbrev pub red : Text
red = codes "red car"

abbrev pub digest : Text → Text
digest t = if text_eq t red then repeat 64 0 else repeat 64 1

abbrev pub loads : Text → Result (EmbedError Text) ℕ
loads [] = ok 0
loads (n ∷ t) = ok n

abbrev pub embedder : Embedder Entries ℕ ℕ Text
embedder = record {
  registry = providers;
  redis = redis;
  ttl = 3600;
  digest = digest;
  dumps = λ n. n ∷ [];
  loads = loads;
}

abbrev pub Asked : Text → Type 0
Asked t = (t ≡ red) ⊎ (t ≡ codes "blue sky")

abbrev pub oracle : Text → Text → Result (EmbedError Text) ℕ
oracle text model = if text_eq small model then ok (length text) else err (key_error model)

pub sized : (t : Text) → length (digest t) ≡ 64
sized t = elim (Bool-cases (text_eq t red)) [ inl e ↦ rw e refl | inr e ↦ rw e refl ]

pub apart : (a b : Text) → Asked a → Asked b → digest a ≡ digest b → a ≡ b
apart a b (inl e) (inl f) h = cc (e, f)
apart a b (inr e) (inr f) h = cc (e, f)
apart a b (inl e) (inr f) h = let g = rw e at (rw f at h) in cc g
apart a b (inr e) (inl f) h = let g = rw e at (rw f at h) in cc g

pub answers :
    (text model : Text) (w : ℕ)
    → first (embed_texts providers (text ∷ []) model w).0 ≡ oracle text model
unfolding first embed_texts get
answers text model w = elim (Bool-cases (text_eq small model)) [
  | inl e ↦ rw e refl
  | inr e ↦ rw e refl
]

pub empty-IsCoherent : IsCoherent embedder Asked oracle no_entries
unfolding IsCoherent
empty-IsCoherent text model cached asked found = cc found

abbrev events : List CacheEvent
events =
    request red small
    ∷ request (codes "blue sky") small
    ∷ request red small
    ∷ expired (cache_key digest small red)
    ∷ request red small
    ∷ []

events-IsAsked : All (IsAsked embedder Asked) events
unfolding IsAsked
events-IsAsked = (inl refl, (inr refl, (inl refl, (tt, (inl refl, tt)))))

serve-uncached_example : serve embedder events (no_entries, 0) ≡ uncached embedder oracle events
serve-uncached_example =
    serve-uncached embedder Asked oracle sized apart (λ v. refl) answers events (no_entries, 0)
      events-IsAsked empty-IsCoherent
