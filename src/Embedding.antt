-- ===== src/Embedding.antt =====
-- packages/core/sutram_core/embedding/registry.py: the providers of embeddings by model name.
-- A provider (embedding/base.py) is outside the model: `World` is the state of the services that
-- providers call.
pub mod OpenAi
use sutram.Prelude.{List, [], ◌∷◌, map, Text, text_eq, if◌then◌else◌, Result, ok, err}
use sutram.Prelude.Program.{Program}

-- KeyError for a model without a provider, IndexError for an empty answer, and what a provider or
-- the JSON parser raises.
pub data EmbedError (Failure : Type 0) : Type 0 where
  key_error : Text → EmbedError Failure
  index_error : EmbedError Failure
  json_error : EmbedError Failure
  failure : Failure → EmbedError Failure

pub record Provider (World Vector Failure : Type 0) : Type 0 where
  pub model_name : Text
  pub embed_texts : List Text → Program (EmbedError Failure) World (List Vector)

-- The registry's dict, in the order of insertion.
abbrev pub Registry : Type 0 → Type 0 → Type 0 → Type 0
Registry World Vector Failure = List (Provider World Vector Failure)

module _ {World Vector Failure : Type 0} where
  unfoldable pub register :
      Provider World Vector Failure → Registry World Vector Failure → Registry World Vector Failure
  register p [] = p ∷ []
  register p (q ∷ ps) =
      let rest = register p ps in if text_eq q.model_name p.model_name then p ∷ ps else q ∷ rest

  unfoldable pub get :
      Text
      → Registry World Vector Failure
      → Result (EmbedError Failure) (Provider World Vector Failure)
  get name [] = err (key_error name)
  get name (p ∷ ps) = let rest = get name ps in if text_eq p.model_name name then ok p else rest

  embed_with :
      List Text
      → Result (EmbedError Failure) (Provider World Vector Failure)
      → Program (EmbedError Failure) World (List Vector)
  embed_with texts (ok p) w = p.embed_texts texts w
  embed_with texts (err e) w = (err e, w)

  unfoldable pub embed_texts :
      Registry World Vector Failure
      → List Text
      → Text
      → Program (EmbedError Failure) World (List Vector)
  unfolding embed_with
  embed_texts registry texts model w = embed_with texts (get model registry) w

  unfoldable pub registered_models : Registry World Vector Failure → List Text
  registered_models registry = map (λ p. p.model_name) registry
