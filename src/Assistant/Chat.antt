-- ===== src/Assistant/Chat.antt =====
-- ChatService of chat_service.py: the answer of the assistant, streamed to the client and written to
-- the journal. The events are those that chat_stream.py declares, so the tests of their types pass.
pub mod ToolCalls
pub mod Stream
pub mod Persisted
use exobrain.Prelude.{
  ℕ, suc, ◌+◌, String, Bool, true, false, not, Option, none, some, List, [], ◌∷◌, ◌++◌, ◌==◌,
  length, map, if◌then◌else◌,
}
use exobrain.Prelude.Dict
use exobrain.Prelude.Text.{concat, strip_text}
use exobrain.Assistant.Calls.{
  Answer, Call, returned, failed, return, raise, raise_some, ◌>>=◌, ◌>>◌,
}

pub data Event : Type 0 where
  tool_call : String → String → String → Event
  tool_response : String → String → Event
  error : String → Option String → Event
  message_chunk : String → Event
  done : String → Event

-- What stands in the queue of a stream.
pub data QueueItem : Type 0 where
  event : Event → QueueItem
  sentinel : QueueItem

pub record ToolCall : Type 0 where
  pub tool_call_id : String
  pub title : String
  pub description : String
  pub response : Option String
  pub error_text : Option String

-- A row of the journal; its client_message_id is none where the service made one up.
pub record JournalMessage : Type 0 where
  pub message_id : String
  pub role : String
  pub content : String
  pub client_message_id : Option String

-- The journal of today: its messages, and its tool calls with the ids of their messages.
pub record Journal : Type 0 where
  pub messages : List JournalMessage
  pub tool_calls : List (String × ToolCall)

pub record State : Type 0 where
  pub queue : List QueueItem
  pub journal : Journal

-- The variables of the loop over the agent's events.
pub record Collected : Type 0 where
  pub chunks : List String
  pub tool_calls : List (String × ToolCall)

abbrev pub set_response : String → ToolCall → ToolCall
set_response message call = record call { response = some message }

abbrev pub set_error : String → ToolCall → ToolCall
set_error message call = record call { error_text = some message }

abbrev pub new_call : String → String → String → ToolCall
new_call tool_call_id title description = record {
  tool_call_id = tool_call_id;
  title = title;
  description = description;
  response = none;
  error_text = none;
}

-- tool_calls[tool_call_id][…] = …, where the id is known
abbrev pub change :
    (ToolCall → ToolCall)
    → List (String × ToolCall)
    → String
    → Option ToolCall
    → List (String × ToolCall)
change f calls tool_call_id none = calls
change f calls tool_call_id (some call) = Dict.put calls tool_call_id (f call)

-- The tool calls after one more event.
unfoldable pub add_event : List (String × ToolCall) → Event → List (String × ToolCall)
add_event calls (tool_call tool_call_id title description) =
    if tool_call_id == ""
    then calls
    else Dict.put calls tool_call_id (new_call tool_call_id title description)
add_event calls (tool_response tool_call_id message) =
    change (set_response message) calls tool_call_id (Dict.get calls tool_call_id)
add_event calls (error message none) = calls
add_event calls (error message (some tool_call_id)) =
    change (set_error message) calls tool_call_id (Dict.get calls tool_call_id)
add_event calls (message_chunk text) = calls
add_event calls (done reason) = calls

abbrev chunk_of : Event → List String
chunk_of (message_chunk text) = text ∷ []
chunk_of _ = []

unfoldable pub collect : Collected → Event → Collected
unfolding add_event
collect c e = record { chunks = c.chunks ++ chunk_of e; tool_calls = add_event c.tool_calls e }

abbrev pub put_event : QueueItem → State → State
put_event item w = record w { queue = w.queue ++ (item ∷ []) }

abbrev error_event : QueueItem
error_event = event (error "Assistant stream failed" none)

-- The except and the finally block.
unfoldable pub finish : Answer String (Unit {0}) × State → State
finish (returned u, w) = put_event sentinel (put_event (event (done "complete")) w)
finish (failed exc, w) =
    put_event sentinel (put_event (event (done "complete")) (put_event error_event w))

-- `client_message_id or str(uuid.uuid4())`; no other row has an id that uuid4 makes.
abbrev pub given_key : Option String → Option String
given_key none = none
given_key (some client_message_id) =
    if client_message_id == "" then none else some client_message_id

abbrev pub has_key : Option String → Option String → Bool
has_key (some a) (some b) = a == b
has_key _ _ = false

-- The row that ON CONFLICT (conversation_id, client_message_id) finds.
unfoldable pub find_sent : Option String → List JournalMessage → Option JournalMessage
find_sent key [] = none
find_sent key (m ∷ messages) =
    if has_key m.client_message_id key then some m else find_sent key messages

-- DO UPDATE SET content
abbrev set_content : Option String → String → JournalMessage → JournalMessage
set_content key content m =
    if has_key m.client_message_id key then record m { content = content } else m

abbrev pub upsert :
    String → String → String → Option String → Option JournalMessage → Journal → String × Journal
upsert fresh role content key (some found) j =
    (found.message_id, record j { messages = map (set_content key content) j.messages })
upsert fresh role content key none j = (
  fresh,
  record j {
    messages =
        j.messages
        ++ (record { message_id = fresh; role = role; content = content; client_message_id = key }
            ∷ []);
  },
)

abbrev answer_upsert : State → String × Journal → Answer String String × State
answer_upsert w (id, journal) = (returned id, record w { journal = journal })

-- The journal service: whether it raises, by the role of a message and by the number of tool calls,
-- and the ids of new rows by the number of messages; and the agent: the events that it yields, and
-- the exception that ends them, if one does. A call that raises has changed nothing.
module _ (ensure_fault : Option String) (message_fault : String → Option String)
    (message_id : ℕ → String) (tool_call_fault : ℕ → Option String) (agent_events : List Event)
    (agent_fault : Option String) where
  abbrev ensure_journal : Call State String (Unit {0})
  ensure_journal = raise_some (λ exc. exc) ensure_fault (return tt)

  abbrev pub create_journal_message : String → String → Option String → Call State String String
  create_journal_message role content client_message_id =
      raise_some (λ exc. exc) (message_fault role)
        (λ w. answer_upsert w (
          upsert (message_id (length w.journal.messages)) role content (given_key client_message_id)
            (find_sent (given_key client_message_id) w.journal.messages) w.journal))

  abbrev pub create_journal_tool_call : String → ToolCall → Call State String (Unit {0})
  create_journal_tool_call id call w =
      raise_some (λ exc. exc) (tool_call_fault (length w.journal.tool_calls))
        (λ w. (
          returned tt,
          record w {
            journal = record w.journal { tool_calls = w.journal.tool_calls ++ ((id, call) ∷ []) };
          },
        ))
        w

  -- The loop over the events of the agent: each is put into the queue, then collected.
  unfoldable pub forward : Collected → List Event → Call State String Collected
  unfolding collect
  forward c [] = raise_some (λ exc. exc) agent_fault (return c)
  forward c (e ∷ events) = λ w. forward (collect c e) events (put_event (event e) w)

  unfoldable pub create_tool_calls :
      String → List (String × ToolCall) → Call State String (Unit {0})
  unfolding ◌>>=◌
  create_tool_calls id [] = return tt
  create_tool_calls id ((tool_call_id, call) ∷ calls) =
      create_journal_tool_call id call >> create_tool_calls id calls

  -- The assistant's message, and the tool calls only where there is one.
  unfoldable pub persist : Collected → Call State String (Unit {0})
  unfolding create_tool_calls ◌>>=◌
  persist c =
      let assistant_message = strip_text (concat c.chunks) in
      if assistant_message == ""
      then return tt
      else (create_journal_message "assistant" assistant_message none >>= λ id.
          create_tool_calls id c.tool_calls)

  -- The try block of _produce_journal_stream.
  unfoldable pub run_stream : String → String → Call State String (Unit {0})
  unfolding persist forward ◌>>=◌
  run_stream message client_message_id =
      ensure_journal
      >> (create_journal_message "user" message (some client_message_id) >>= λ id.
          forward (record { chunks = []; tool_calls = [] }) agent_events >>= persist)

  unfoldable pub produce_journal_stream : String → String → State → State
  unfolding run_stream finish
  produce_journal_stream message client_message_id w =
      finish (run_stream message client_message_id w)

-- What a client has read of a stream, and whether the stream ended there; else it waits for more.
pub record Reading : Type 0 where
  pub events : List Event
  pub ended : Bool

abbrev read_event : Event → Reading → Reading
read_event e r = record { events = e ∷ r.events; ended = r.ended }

-- stream_events, of a known stream: what it yields of what stands in the queue.
unfoldable pub stream_events : List QueueItem → Reading
stream_events [] = record { events = []; ended = false }
stream_events (event e ∷ queue) = read_event e (stream_events queue)
stream_events (sentinel ∷ queue) = record { events = []; ended = true }
