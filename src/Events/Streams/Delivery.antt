-- ===== src/Events/Streams/Delivery.antt =====
-- redis_streams.py: what has been published is read.
use sutram.Prelude.{
  ℕ, ◌+◌, ◌≤◌, List, [], ◌∷◌, ◌++◌, map, length, take, drop, Text, ◌≡◌, refl, arith, length-append,
  ap, ◌∙◌, sym,
}
use mathlib.Core.List.{append_assoc, append-nil}
use sutram.Events.{Event}
use sutram.Events.Messages.{Envelope, Formats, to_stream_dict}
use sutram.Events.Streams.{Entry, StreamServer, given, flatten, publish, read}

flatten-given : (stream : Text) (es : List Entry) → flatten (given stream es) ≡ es
unfolding flatten
flatten-given stream [] = refl
flatten-given stream (e ∷ es) = append-nil (e ∷ es)

module _ {S F Time : Type 0} (server : StreamServer S) (formats : Formats F Time)
    (stream : Text) where
  -- Events published one after the other, with the entries that they become.
  unfoldable pub publish_all : List (Envelope Time × Event F) → S → List Entry × S
  publish_all [] s = ([], s)
  publish_all ((base, e) ∷ es) s =
      let (id, s') = publish server formats stream base e s in
      let (entries, s'') = publish_all es s' in ((id, to_stream_dict formats base e) ∷ entries, s'')

  unread-publish_all :
      (es : List (Envelope Time × Event F)) (s : S)
      → length (server.unread stream s) + length es ≤ 10000
      → server.unread stream (publish_all es s).1 ≡ server.unread stream s ++ (publish_all es s).0
  unfolding publish_all publish
  unread-publish_all [] s h = sym (append-nil (server.unread stream s))
  unread-publish_all ((base, e) ∷ es) s h =
      let d = to_stream_dict formats base e in
      let added = server.unread-xadd stream d s (omega (arith, h)) in
      let longer = length-append (server.unread stream s) (((server.xadd stream d s).0, d) ∷ []) in
      let one : List Entry = ((server.xadd stream d s).0, d) ∷ [] in
      let rest =
        unread-publish_all es (server.xadd stream d s).1 (rw added (omega (arith, h, longer))) in
      let entries = (publish_all es (server.xadd stream d s).1).0 in
      rest ∙ rw added (append_assoc (server.unread stream s) one entries)

  pending-publish_all :
      (es : List (Envelope Time × Event F)) (s : S)
      → server.pending stream (publish_all es s).1 ≡ server.pending stream s
  unfolding publish_all publish
  pending-publish_all [] s = refl
  pending-publish_all ((base, e) ∷ es) s =
      let d = to_stream_dict formats base e in
      pending-publish_all es (server.xadd stream d s).1 ∙ server.pending-xadd stream d s

  dicts-publish_all :
      (es : List (Envelope Time × Event F)) (s : S)
      → map (λ m. m.1) (publish_all es s).0 ≡ map (λ (base, e). to_stream_dict formats base e) es
  unfolding publish_all publish
  dicts-publish_all [] s = refl
  dicts-publish_all ((base, e) ∷ es) s =
      let d = to_stream_dict formats base e in
      ap (◌∷◌ d) (dicts-publish_all es (server.xadd stream d s).1)

  -- Events that are published while the stream keeps no more than 10,000 unread entries are read, as
  -- their dicts and in their order, after what was unread before: a read gives the first ones, as many
  -- as asked for, leaves the others unread, and makes those that it gave pending.
  pub read-publish_all :
      (count : ℕ) (es : List (Envelope Time × Event F)) (s : S)
      → length (server.unread stream s) + length es ≤ 10000
      → (map (λ m. m.1) (publish_all es s).0 ≡ map (λ (base, e). to_stream_dict formats base e) es)
        × ((read server stream count (publish_all es s).1).0
            ≡ take count (server.unread stream s ++ (publish_all es s).0))
        × (server.unread stream (read server stream count (publish_all es s).1).1
            ≡ drop count (server.unread stream s ++ (publish_all es s).0))
        × (server.pending stream (read server stream count (publish_all es s).1).1
            ≡ server.pending stream s
              ++ map (λ m. m.0) (take count (server.unread stream s ++ (publish_all es s).0)))
  unfolding read
  read-publish_all count es s h =
      let s' = (publish_all es s).1 in
      let all = unread-publish_all es s h in
      (
        dicts-publish_all es s,
        rw (server.xreadgroup-given stream count s')
            (flatten-given stream (take count (server.unread stream s')) ∙ rw all refl),
        server.unread-xreadgroup stream count s' ∙ rw all refl,
        server.pending-xreadgroup stream count s' ∙ rw all (rw (pending-publish_all es s) refl),
      )
