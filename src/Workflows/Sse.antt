-- ===== src/Workflows/Sse.antt =====
-- services/workflow-service/app/routes/executions.py: `stream_execution`, the events of an
-- execution as Server-Sent Events. `reply` is the error of XGROUP CREATE, if any; `polls` are the answers of XREADGROUP until the client leaves.
use sutram.Prelude.{
  List, [], ◌∷◌, ◌++◌, Option, none, some, Text, codes, contains, text_eq, ◌||◌, Bool, true, false,
  any, if◌then◌else◌, Result, ok, err, ◌≡◌, refl, Bool-cases, inl, inr, arith,
}
use sutram.Prelude.Dicts.{Dict, get_item}
use sutram.Models.{Uuid}
use sutram.Engine.Exec.{ExecutionRow}
use sutram.Executions.{HttpError, not_found, find_row}

-- What the generator does: an XACK, or a frame for the client.
pub data Act : Type 0 where
  ack : Text → Act
  frame : Text → Act

-- An HTTPException, and an error of XGROUP CREATE.
pub data StreamError : Type 0 where
  http_error : HttpError → StreamError
  response_error : Text → StreamError

abbrev pub Entry : Type 0
Entry = Text × Dict

unfoldable pub is_terminal_type : Option Text → Bool
is_terminal_type none = false
is_terminal_type (some t) =
    text_eq t (codes "execution.completed")
    || text_eq t (codes "execution.paused")
    || text_eq t (codes "execution.failed")

unfoldable pub is_last : Entry → Bool
unfolding is_terminal_type
is_last entry = is_terminal_type (get_item (codes "event_type") entry.1)

unfoldable pub or_message : Option Text → Text
or_message none = codes "message"
or_message (some t) = t

-- The entries up to the first terminal event, with it, and the entries of all polls.
unfoldable pub through_last : List Entry → List Entry
through_last [] = []
through_last (e ∷ es) = let rest = through_last es in if is_last e then e ∷ [] else e ∷ rest

abbrev pub concat : List (List Entry) → List Entry
concat [] = []
concat (es ∷ polls) = es ++ concat polls

module _ (dumps : Dict → Text) where
  unfoldable pub sse_frame : Dict → Text
  unfolding or_message
  sse_frame fields =
      codes "event: "
      ++ (or_message (get_item (codes "event_type") fields)
          ++ (codes "\ndata: " ++ (dumps fields ++ codes "\n\n")))

  -- The loop over the entries of one answer: what it does, and whether it returned.
  unfoldable pub yield_entries : List Entry → List Act × Bool
  unfolding is_last sse_frame
  yield_entries [] = ([], false)
  yield_entries (e ∷ es) =
      let (acts, returned) = yield_entries es in
      if is_last e
      then (ack e.0 ∷ frame (sse_frame e.1) ∷ [], true)
      else (ack e.0 ∷ frame (sse_frame e.1) ∷ acts, returned)

  -- `event_generator`, until it returns or the client leaves.
  unfoldable pub event_generator : List (List Entry) → List Act × Bool
  unfolding yield_entries
  event_generator [] = ([], false)
  event_generator (entries ∷ polls) =
      let (acts, returned) = yield_entries entries in
      let (more, returned') = event_generator polls in
      if returned then (acts, true) else (acts ++ more, returned')

  -- XGROUP CREATE, of which an error that is not BUSYGROUP is raised.
  create_group : Option Text → Result StreamError (Unit {0})
  create_group none = ok tt
  create_group (some message) =
      if contains message (codes "BUSYGROUP") then ok tt else err (response_error message)

  open_stream :
      List (List Entry) → Result StreamError (Unit {0}) → Result StreamError (List Act × Bool)
  unfolding event_generator
  open_stream polls (ok u) = ok (event_generator polls)
  open_stream polls (err e) = err e

  on_owner :
      {V F : Type 0}
      → Option Text
      → List (List Entry)
      → Option (ExecutionRow V F)
      → Result StreamError (List Act × Bool)
  unfolding create_group open_stream
  on_owner reply polls none = err (http_error not_found)
  on_owner reply polls (some row) = open_stream polls (create_group reply)

  unfoldable pub stream_execution :
      {V F : Type 0}
      → Uuid
      → Uuid
      → List (ExecutionRow V F)
      → Option Text
      → List (List Entry)
      → Result StreamError (List Act × Bool)
  unfolding on_owner
  stream_execution execution_id tenant_id rows reply polls =
      on_owner reply polls (find_row execution_id tenant_id rows)

  -- What is done for entries.
  unfoldable pub acts_of : List Entry → List Act
  acts_of [] = []
  acts_of (e ∷ es) = ack e.0 ∷ frame (sse_frame e.1) ∷ acts_of es

  yield_entries-returned :
      (es more : List Entry)
      → (yield_entries es).1 ≡ true
      → ((yield_entries es).0 ≡ acts_of (through_last (es ++ more)))
        × (any is_last (es ++ more) ≡ true)
  unfolding yield_entries through_last acts_of
  yield_entries-returned [] more = λ h. ground (arith, h)
  yield_entries-returned (e ∷ es) more = elim (Bool-cases (is_last e)) [
    | inl l ↦ rw l (λ h. (refl, refl))
    | inr l ↦ rw l (λ h. let (a, b) = yield_entries-returned es more h in (cc a, b))
  ]

  yield_entries-open :
      (es more : List Entry)
      → (yield_entries es).1 ≡ false
      → ((yield_entries es).0 ++ acts_of (through_last more) ≡ acts_of (through_last (es ++ more)))
        × (any is_last (es ++ more) ≡ any is_last more)
  unfolding yield_entries through_last acts_of
  yield_entries-open [] more = λ h. (refl, refl)
  yield_entries-open (e ∷ es) more = elim (Bool-cases (is_last e)) [
    | inl l ↦ rw l (λ h. ground (arith, h))
    | inr l ↦ rw l (λ h. let (a, b) = yield_entries-open es more h in (cc a, b))
  ]

  -- However the entries arrive in polls, the stream acknowledges and sends, one after the other,
  -- the entries up to the first terminal event and none after it, and it ends by itself exactly if
  -- there is one.
  pub event_generator-through_last :
      (polls : List (List Entry))
      → ((event_generator polls).0 ≡ acts_of (through_last (concat polls)))
        × ((event_generator polls).1 ≡ any is_last (concat polls))
  unfolding event_generator acts_of through_last
  event_generator-through_last [] = (refl, refl)
  event_generator-through_last (es ∷ polls) =
      let (a, b) = event_generator-through_last polls in
      elim (Bool-cases (yield_entries es).1) [
        | inl r ↦
            let (c, d) = yield_entries-returned es (concat polls) r in rw r (c, ground (arith, d))
        | inr r ↦ let (c, d) = yield_entries-open es (concat polls) r in rw r (cc (a, c), cc (b, d))
      ]
