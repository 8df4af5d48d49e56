-- ===== src/Assistant/CacheSamples.antt =====
-- The tables of the conversations behind a cache, on which the theorem about journals is applied.
use exobrain.Prelude.{
  String, ◌≡◌, refl, Bool, true, false, Option, none, some, List, [], ◌∷◌, ◌==◌, ◌&&◌, map,
  filter_by, if◌then◌else◌,
}
use exobrain.Assistant.Journals.{Cache, Queries, list_journals, create_in_journal}
use exobrain.Assistant.Journals.Coherence.{Touches}
use exobrain.Assistant.Journals.Histories.{
  lists, creates, start_here, then_step, empty_cache, AreCurrent, Reaches-AreCurrent,
}
use exobrain.Assistant.Conversations.{
  Conversation, Message, Tables, NewMessage, insert_message, find_conversation,
  get_reference_by_conversation_id,
}

abbrev reference_of_found : Option Conversation → Option String
reference_of_found none = none
reference_of_found (some c) = some c.reference

abbrev contents_of : List Message → Option Conversation → List String
contents_of messages none = []
contents_of messages (some c) =
    map (λ m. m.content) (filter_by (λ m. m.conversation_id == c.id) messages)

-- Queries without limits and cursors on the tables.
abbrev service : Queries Tables String
service = record {
  list_conversations = λ t user_id limit before.
      map (λ c. c.reference) (filter_by (λ c. c.user_id == user_id) t.conversations);
  get_conversation = λ t user_id reference.
      reference_of_found (find_conversation t.conversations user_id reference);
  list_messages = λ t user_id reference limit before.
      contents_of t.messages (find_conversation t.conversations user_id reference);
}

-- The decoded text of a payload.
abbrev decoded : String → String
decoded s = if s == "2026-02-19" then "2026/02/19" else s

abbrev second : Conversation
second = record { id = "j2"; user_id = "user-1"; reference = "2026/02/18" }

abbrev tables : Tables
tables = record {
  conversations = record { id = "j1"; user_id = "user-1"; reference = "2026/02/19" } ∷ second ∷ [];
  messages = [];
}

abbrev greeting : NewMessage
greeting = record {
  conversation_id = "j1";
  user_id = "user-1";
  role = "user";
  content = "Hello";
  client_message_id = some "c1";
}

abbrev insert : Tables → String × Tables
insert t = insert_message "m1" "uuid-1" greeting t

abbrev reference_of : Tables → Option String
reference_of t = get_reference_by_conversation_id "j1" "user-1" t

abbrev written_tables : Tables
written_tables = (insert tables).1

insert-Touches : Touches service "user-1" "2026/02/19" tables (insert tables).1
unfolding insert_message find_conversation
insert-Touches = record {
  lists = λ v n b other. refl;
  conversation = λ v s other. refl;
  messages_of = λ v s n b other. rw other (of_second ("user-1" == v && "2026/02/18" == s));
}
  where
    of_second :
        (b : Bool)
        → contents_of written_tables.messages (if b then some second else none)
          ≡ contents_of [] (if b then some second else none)
    of_second true = refl
    of_second false = refl

abbrev read_once : Cache String
read_once = (list_journals service decoded "user-1" 10 none tables (empty_cache service decoded)).1

abbrev written : Cache String
written = (create_in_journal none insert reference_of "user-1" tables read_once).2

known : reference_of written_tables ≡ some "2026/02/19"
unfolding get_reference_by_conversation_id insert_message
known = refl

-- The list of the journals is read and kept, and then a message is inserted into one of them.
Reaches-AreCurrent_example : AreCurrent service decoded written_tables written
unfolding create_in_journal
Reaches-AreCurrent_example = Reaches-AreCurrent service decoded tables written_tables written (
    then_step (tables, read_once) (written_tables, written)
      (then_step (tables, empty_cache service decoded) (tables, read_once) start_here
        (lists "user-1" 10 none tables (empty_cache service decoded) refl))
      (creates insert reference_of "user-1" "2026/02/19" tables read_once known insert-Touches))
