-- ===== src/Embedding/OpenAi.antt =====
-- packages/core/sutram_core/embedding/openai.py: the provider of embeddings at OpenAI. The HTTP
-- client and the reading of JSON values are parameters.
use sutram.Prelude.{
  ℕ, Option, none, some, List, [], ◌∷◌, map, Text, codes, leb, ◌&&◌, Result, ok, err, if◌then◌else◌,
  ◌≡◌, Option-cases, inl, inr,
}
use sutram.Prelude.Program.{Program, ◌>>=◌, ◌>>◌, raise, pure}
use sutram.Embedding.{EmbedError, failure, Provider}

pub record Response (J Failure : Type 0) : Type 0 where
  pub status_code : ℕ
  pub json : Result Failure J

-- The client and the JSON values: `item name j` is `j[name]`, and `items j` what a loop over `j`
-- gives; both give nothing where Python raises KeyError or TypeError.
pub record OpenAiApi (World J Vector Failure : Type 0) : Type 0 where
  pub post : Text → List Text → Program (EmbedError Failure) World (Response J Failure)
  pub item : Text → J → Option J
  pub items : J → Option (List J)
  pub vector : J → Vector
  pub http_status_error : ℕ → Failure
  pub value_error : J → Failure

module _ {World J Vector Failure : Type 0} (api : OpenAiApi World J Vector Failure) where
  -- `response.raise_for_status()`.
  abbrev raise_for_status : ℕ → Program (EmbedError Failure) World (Unit {0})
  raise_for_status status =
      if leb 200 status && leb status 299
      then pure tt
      else raise (failure (api.http_status_error status))

  abbrev read_json : Result Failure J → Program (EmbedError Failure) World J
  read_json (ok j) = pure j
  read_json (err e) = raise (failure e)

  -- The elements that the comprehension goes through, and its vectors.
  abbrev elements : Option J → Option (List J)
  elements none = none
  elements (some j) = api.items j

  abbrev cons_some : Option Vector → Option (List Vector) → Option (List Vector)
  cons_some (some v) (some vs) = some (v ∷ vs)
  cons_some _ _ = none

  unfoldable pub embedding_of : J → Option Vector
  embedding_of j = elim (api.item (codes "embedding") j) [
    | none ↦ none
    | some v ↦ some (api.vector v)
  ]

  unfoldable pub embeddings : List J → Option (List Vector)
  embeddings [] = some []
  embeddings (j ∷ js) = cons_some (embedding_of j) (embeddings js)

  abbrev all_embeddings : Option (List J) → Option (List Vector)
  all_embeddings none = none
  all_embeddings (some js) = embeddings js

  abbrev or_value_error :
      J → Option (List Vector) → Program (EmbedError Failure) World (List Vector)
  or_value_error body none = raise (failure (api.value_error body))
  or_value_error body (some vectors) = pure vectors

  unfoldable pub embed : List Text → Program (EmbedError Failure) World (List Vector)
  unfolding embeddings
  embed texts = do
    response ← api.post (codes "text-embedding-3-small") texts
    raise_for_status response.status_code
    body ← read_json response.json
    or_value_error body (all_embeddings (elements (api.item (codes "data") body)))

  unfoldable pub open_ai_embedder : Provider World Vector Failure
  unfolding embed
  open_ai_embedder = record { model_name = codes "text-embedding-3-small"; embed_texts = embed }

  -- The vectors of an answer are one for each element, each that of its element, in order.
  pub embeddings-aligned :
      (js : List J) (vs : List Vector) → embeddings js ≡ some vs → map embedding_of js ≡ map some vs
  unfolding embeddings
  embeddings-aligned [] vs = λ h. cc h
  embeddings-aligned (j ∷ js) vs = elim (Option-cases (embedding_of j)) [
    | inl e ↦ rw e (λ h. cc h)
    | inr (v, e) ↦ elim (Option-cases (embeddings js)) [
      | inl k ↦ rw e (rw k (λ h. cc h))
      | inr (ws, k) ↦ let rest = embeddings-aligned js ws k in rw e (rw k (rw rest (λ h. cc h)))
    ]
  ]
