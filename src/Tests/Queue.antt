-- ===== src/Tests/Queue.antt =====
-- Three events published on a server with one stream, and a read of two.
use sutram.Prelude.{
  ℕ, ◌+◌, List, [], ◌∷◌, ◌++◌, map, filter, not, take, drop, Text, text_eq, codes, str_int, ◌≡◌,
  refl, arith,
}
use sutram.Events.{Event, execution_started}
use sutram.Events.Messages.{Envelope, Formats, to_stream_dict}
use sutram.Events.Streams.{Entry, StreamServer, given, read}
use sutram.Events.Streams.Delivery.{publish_all, read-publish_all}

record Queue : Type 0 where
  entries : List Entry
  given_ids : List Text
  next : ℕ

abbrev server : StreamServer Queue
server = record {
  unread = λ stream s. s.entries;
  pending = λ stream s. s.given_ids;
  xadd = λ stream d s. (
    str_int s.next,
    record s { entries = s.entries ++ (str_int s.next, d) ∷ []; next = s.next + 1 },
  );
  xreadgroup = λ stream count s. (
    given stream (take count s.entries),
    record s {
      entries = drop count s.entries;
      given_ids = s.given_ids ++ map (λ e. e.0) (take count s.entries);
    },
  );
  xack = λ stream id s. record s { given_ids = filter (λ i. not (text_eq i id)) s.given_ids };
  unread-xadd = λ stream d s h. refl;
  pending-xadd = λ stream d s. refl;
  xreadgroup-given = λ stream count s. refl;
  unread-xreadgroup = λ stream count s. refl;
  pending-xreadgroup = λ stream count s. refl;
  pending-xack = λ stream id s. refl;
  unread-xack = λ stream id s. refl;
}

abbrev formats : Formats ℕ ℕ
formats = record { str_float = str_int; str_datetime = str_int; dumps = λ outputs. codes "{}" }

abbrev started : Envelope ℕ × Event ℕ
started = (
  record { trace_id = codes "ab"; timestamp = 12; schema_version = 1 },
  execution_started
      (record { tenant_id = codes "7a"; execution_id = codes "0b"; workflow_id = codes "9c" }),
)

abbrev events : List (Envelope ℕ × Event ℕ)
events = started ∷ started ∷ started ∷ []

abbrev empty : Queue
empty = record { entries = []; given_ids = codes "7" ∷ []; next = 8 }

abbrev stream : Text
stream = codes "events:executions"

read-publish_all_example :
    (map (λ m. m.1) (publish_all server formats stream events empty).0
      ≡ map (λ (base, e). to_stream_dict formats base e) events)
    × ((read server stream 2 (publish_all server formats stream events empty).1).0
        ≡ take 2 ([] ++ (publish_all server formats stream events empty).0))
    × ((read server stream 2 (publish_all server formats stream events empty).1).1.entries
        ≡ drop 2 ([] ++ (publish_all server formats stream events empty).0))
    × ((read server stream 2 (publish_all server formats stream events empty).1).1.given_ids
        ≡ codes "7" ∷ []
          ++ map (λ m. m.0) (take 2 ([] ++ (publish_all server formats stream events empty).0)))
read-publish_all_example = read-publish_all server formats stream 2 events empty (omega arith)
