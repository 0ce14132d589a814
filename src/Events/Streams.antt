-- ===== src/Events/Streams.antt =====
-- packages/core/sutram_core/streams/redis_streams.py: the producer and the consumer group on a Redis
-- server. Keys and values are texts already, so that nothing is decoded.
pub mod Delivery
use sutram.Prelude.{
  ℕ, ◌+◌, ◌<◌, List, [], ◌∷◌, ◌++◌, map, length, take, drop, Text, text_eq, if◌then◌else◌, ◌≡◌,
  Bool, filter, not,
}
use sutram.Prelude.Dicts.{Dict}
use sutram.Events.{Event}
use sutram.Events.Messages.{Envelope, Formats, to_stream_dict}

abbrev pub Entry : Type 0
Entry = Text × Dict

-- What XREADGROUP answers for one stream.
abbrev pub given : Text → List Entry → List (Text × List Entry)
given stream [] = []
given stream (e ∷ es) = (stream, e ∷ es) ∷ []

-- The streams with one consumer group on each: the entries that the group has not been given, and
-- the ids of those that it has been given and not acknowledged. XADD with MAXLEN drops none of the
-- newest 10,000 entries, XREADGROUP with `>` gives no more than COUNT entries, and gives no list at
-- all where there is none.
pub record StreamServer (S : Type 0) : Type 0 where
  pub unread : Text → S → List Entry
  pub pending : Text → S → List Text
  pub xadd : Text → Dict → S → Text × S
  pub xreadgroup : Text → ℕ → S → List (Text × List Entry) × S
  pub xack : Text → Text → S → S
  pub unread-xadd :
      (stream : Text) (d : Dict) (s : S)
      → length (unread stream s) < 10000
      → unread stream (xadd stream d s).1 ≡ unread stream s ++ ((xadd stream d s).0, d) ∷ []
  pub pending-xadd :
      (stream : Text) (d : Dict) (s : S) → pending stream (xadd stream d s).1 ≡ pending stream s
  pub xreadgroup-given :
      (stream : Text) (count : ℕ) (s : S)
      → (xreadgroup stream count s).0 ≡ given stream (take count (unread stream s))
  pub unread-xreadgroup :
      (stream : Text) (count : ℕ) (s : S)
      → unread stream (xreadgroup stream count s).1 ≡ drop count (unread stream s)
  pub pending-xreadgroup :
      (stream : Text) (count : ℕ) (s : S)
      → pending stream (xreadgroup stream count s).1
        ≡ pending stream s ++ map (λ e. e.0) (take count (unread stream s))
  pub pending-xack :
      (stream id : Text) (s : S)
      → pending stream (xack stream id s) ≡ filter (λ i. not (text_eq i id)) (pending stream s)
  pub unread-xack : (stream id : Text) (s : S) → unread stream (xack stream id s) ≡ unread stream s

-- The two loops of `read`.
unfoldable pub flatten : List (Text × List Entry) → List Entry
flatten [] = []
flatten ((stream, entries) ∷ results) = entries ++ flatten results

module _ {S : Type 0} (server : StreamServer S) where
  unfoldable pub publish :
      {F Time : Type 0} → Formats F Time → Text → Envelope Time → Event F → S → Text × S
  publish formats stream base e s = server.xadd stream (to_stream_dict formats base e) s

  unfoldable pub read : Text → ℕ → S → List Entry × S
  unfolding flatten
  read stream count s =
      (flatten (server.xreadgroup stream count s).0, (server.xreadgroup stream count s).1)

  unfoldable pub ack : Text → Text → S → S
  ack stream message_id s = server.xack stream message_id s
