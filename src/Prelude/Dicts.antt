-- ===== src/Prelude/Dicts.antt =====
-- Python dicts with text keys and values.

use mathlib.Core.List.{List, [], ◌∷◌}
use mathlib.Core.Option.{Option, none, some}
use sutram.Prelude.Tests.{if◌then◌else◌}
use sutram.Prelude.Strings.{Text, text_eq}

-- A dict with text keys, in the order of insertion: an assignment to a key that is there keeps the
-- key's place.
abbrev pub Dict : Type 0
Dict = List (Text × Text)

abbrev pub set_item : Text → Text → Dict → Dict
set_item k v [] = (k, v) ∷ []
set_item k v ((j, w) ∷ d) =
    let rest = set_item k v d in if text_eq j k then (j, v) ∷ d else (j, w) ∷ rest

-- `d.get(k)`.
abbrev pub get_item : Text → Dict → Option Text
get_item k [] = none
get_item k ((j, v) ∷ d) = let rest = get_item k d in if text_eq j k then some v else rest
