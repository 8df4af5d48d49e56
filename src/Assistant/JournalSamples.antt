-- ===== src/Assistant/JournalSamples.antt =====
-- A stream of the assistant and a table of messages, on which the theorems about the chat and the
-- conversations are applied.
use exobrain.Prelude.{
  ℕ, String, ◌≡◌, ◌==◌, refl, length, if◌then◌else◌, Bool, true, false, Option, none, some, List,
  [], ◌∷◌,
}
use exobrain.Prelude.Dict
use exobrain.Assistant.Chat.{
  Event, tool_call, tool_response, message_chunk, State, run_stream, stream_events,
  produce_journal_stream,
}
use exobrain.Assistant.Chat.ToolCalls.{collect_all, history_of, get-collect_all}
use exobrain.Assistant.Chat.Stream.{IsReceived, produce_journal_stream-IsReceived}
use exobrain.Assistant.Conversations.{Tables, NewMessage, insert_message}
use exobrain.Assistant.Conversations.Sequence.{IsNumbered, count_from, insert_message-IsNumbered}
use exobrain.Assistant.Conversations.Retries.{IsResent, insert_message-IsResent}

-- The assistant looks something up and answers in two parts.
abbrev events : List Event
events =
    tool_call "call-1" "Search" "engines"
    ∷ tool_response "call-1" "2 results"
    ∷ message_chunk "I found "
    ∷ message_chunk "two notes."
    ∷ []

abbrev fresh_state : State
fresh_state = record { queue = []; journal = record { messages = []; tool_calls = [] } }

abbrev no_fault : ℕ → Option String
no_fault n = none

abbrev no_message_fault : String → Option String
no_message_fault role = none

abbrev same_id : ℕ → String
same_id n = "m2"

-- The agent fails after its events.
produce_journal_stream-IsReceived_example :
    IsReceived events
      (run_stream none no_message_fault same_id no_fault events
        (some "model failed")
        "Hello"
        "c1"
        fresh_state).0
      (stream_events
        (produce_journal_stream none no_message_fault same_id no_fault events
          (some "model failed")
          "Hello"
          "c1"
          fresh_state).queue)
produce_journal_stream-IsReceived_example =
    produce_journal_stream-IsReceived none no_message_fault same_id no_fault events
      (some "model failed") "Hello" "c1" fresh_state refl

get-collect_all_example :
    Dict.get (collect_all (record { chunks = []; tool_calls = [] }) events).tool_calls "call-1"
    ≡ history_of "call-1" (Dict.get [] "call-1") events
get-collect_all_example = get-collect_all events (record { chunks = []; tool_calls = [] }) "call-1"

abbrev greeting : NewMessage
greeting = record {
  conversation_id = "j1";
  user_id = "user-1";
  role = "user";
  content = "Hello";
  client_message_id = some "c1";
}

abbrev tables : Tables
tables = record {
  conversations = record { id = "j1"; user_id = "user-1"; reference = "2026/02/19" } ∷ [];
  messages =
      record {
        id = "m1";
        conversation_id = "j1";
        user_id = "user-1";
        role = "user";
        content = "Good morning";
        client_message_id = "c0";
        sequence = 1;
      }
      ∷ [];
}

abbrev one : List ℕ
one = 1 ∷ []

tables-IsNumbered : IsNumbered tables.messages
tables-IsNumbered c = split ("j1" == c)
  where
    split : (b : Bool) → (if b then one else []) ≡ count_from 1 (length (if b then one else []))
    split true = refl
    split false = refl

insert_message-IsNumbered_example :
    IsNumbered (insert_message "m2" "uuid-1" greeting tables).1.messages
insert_message-IsNumbered_example =
    insert_message-IsNumbered "m2" "uuid-1" greeting tables tables-IsNumbered

insert_message-IsResent_example :
    ((insert_message "m3" "uuid-2" greeting (insert_message "m2" "uuid-1" greeting tables).1).0
      ≡ (insert_message "m2" "uuid-1" greeting tables).0)
    × IsResent greeting "c1"
        (insert_message "m2" "uuid-1" greeting tables).0
        (insert_message "m2" "uuid-1" greeting tables).1
        (insert_message "m3" "uuid-2" greeting (insert_message "m2" "uuid-1" greeting tables).1).1
insert_message-IsResent_example =
    insert_message-IsResent "m2" "uuid-1" "m3" "uuid-2" greeting greeting tables refl refl
