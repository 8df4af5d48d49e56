-- ===== src/Assistant/Chat/Persisted.antt =====
-- The journal after a stream in which no call raises.
use exobrain.Prelude.{
  ℕ, String, ◌≡◌, Option, none, some, List, [], ◌∷◌, ◌++◌, ◌==◌, All, if◌then◌else◌, length,
}
use exobrain.Prelude.Text.{concat, strip_text}
use exobrain.Assistant.Chat.{Event, ToolCall, Journal, Collected, JournalMessage}
use exobrain.Assistant.Chat.ToolCalls.{collect_all}

abbrev user_message : String → String → String → JournalMessage
user_message id message client_message_id = record {
  message_id = id;
  role = "user";
  content = message;
  client_message_id = some client_message_id;
}

abbrev assistant_message : String → String → JournalMessage
assistant_message id text = record {
  message_id = id;
  role = "assistant";
  content = text;
  client_message_id = none;
}

abbrev pub collected : List Event → Collected
collected events = collect_all (record { chunks = []; tool_calls = [] }) events

abbrev tool_rows : String → List (String × ToolCall) → List (String × ToolCall)
tool_rows id [] = []
tool_rows id ((k, call) ∷ calls) = (id, call) ∷ tool_rows id calls

-- The journal with the answer and its tool calls, if the answer is not empty.
abbrev pub answered : (ℕ → String) → Collected → Journal → Journal
answered message_id c j = if strip_text (concat c.chunks) == "" then j else (record {
  messages =
      j.messages
      ++ (assistant_message (message_id (length j.messages)) (strip_text (concat c.chunks)) ∷ []);
  tool_calls = j.tool_calls ++ tool_rows (message_id (length j.messages)) c.tool_calls;
})

abbrev pub with_message : (ℕ → String) → String → String → Journal → Journal
with_message message_id message client_message_id j = record j {
  messages =
      j.messages ++ (user_message (message_id (length j.messages)) message client_message_id ∷ []);
}

-- The client has not sent a message with this id before.
abbrev pub IsFresh : String → List JournalMessage → Type 0
IsFresh client_message_id messages =
    All (λ m. m.client_message_id ≡ some client_message_id → ⊥) messages

module _ (ensure_fault : Option String) (message_fault : String → Option String)
    (message_id : ℕ → String) (tool_call_fault : ℕ → Option String) (agent_events : List Event)
    (agent_fault : Option String) where
  pub record IsUp : Type 0 where
    pub ensures : ensure_fault ≡ none
    pub stores : (role : String) → message_fault role ≡ none
    pub stores_calls : (n : ℕ) → tool_call_fault n ≡ none
    pub answers : agent_fault ≡ none
