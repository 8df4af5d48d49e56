-- ===== src/Assistant/Conversations.antt =====
-- ConversationService of conversation_service.py on the tables of conversations and messages, without
-- the columns of times.
pub mod Sequence
pub mod Retries
use exobrain.Prelude.{
  ℕ, suc, ◌+◌, String, Bool, true, false, Option, none, some, List, [], ◌∷◌, ◌++◌, ◌==◌, ◌&&◌,
  length, map, ltb, if◌then◌else◌,
}

pub record Conversation : Type 0 where
  pub id : String
  pub user_id : String
  pub reference : String

pub record Message : Type 0 where
  pub id : String
  pub conversation_id : String
  pub user_id : String
  pub role : String
  pub content : String
  pub client_message_id : String
  pub sequence : ℕ

pub record Tables : Type 0 where
  pub conversations : List Conversation
  pub messages : List Message

abbrev pub is_of : String → String → Conversation → Bool
is_of user_id reference c = c.user_id == user_id && c.reference == reference

-- The row of a unique index on (user_id, reference).
unfoldable pub find_conversation : List Conversation → String → String → Option Conversation
find_conversation [] user_id reference = none
find_conversation (c ∷ conversations) user_id reference =
    if is_of user_id reference c then some c else find_conversation conversations user_id reference

-- INSERT … ON CONFLICT (user_id, reference) DO UPDATE … RETURNING id; `fresh` is the id that the
-- database makes for a new row.
abbrev ensured : String → String → String → Tables → Option Conversation → String × Tables
ensured fresh user_id reference t (some c) = (c.id, t)
ensured fresh user_id reference t none = (
  fresh,
  record t {
    conversations =
        t.conversations ++ (record { id = fresh; user_id = user_id; reference = reference } ∷ []);
  },
)

unfoldable pub ensure_conversation : String → String → String → Tables → String × Tables
unfolding find_conversation
ensure_conversation fresh user_id reference t =
    ensured fresh user_id reference t (find_conversation t.conversations user_id reference)

-- SELECT c.reference … WHERE c.id = $1 AND c.user_id = $2
abbrev reference_from : List Conversation → String → String → Option String
reference_from [] conversation_id user_id = none
reference_from (c ∷ conversations) conversation_id user_id =
    if c.id == conversation_id && c.user_id == user_id
    then some c.reference
    else reference_from conversations conversation_id user_id

unfoldable pub get_reference_by_conversation_id : String → String → Tables → Option String
get_reference_by_conversation_id conversation_id user_id t =
    reference_from t.conversations conversation_id user_id

abbrev larger : ℕ → ℕ → ℕ
larger a b = if ltb a b then b else a

-- COALESCE((SELECT MAX(sequence) … WHERE conversation_id = $1), 0)
unfoldable pub max_sequence : String → List Message → ℕ
max_sequence conversation_id [] = 0
max_sequence conversation_id (m ∷ messages) =
    let rest = max_sequence conversation_id messages in
    if m.conversation_id == conversation_id then larger m.sequence rest else rest

-- client_message_id or str(uuid.uuid4())
abbrev pub idempotency_key : Option String → String → String
idempotency_key none uuid = uuid
idempotency_key (some client_message_id) uuid =
    if client_message_id == "" then uuid else client_message_id

abbrev pub conflicts : String → String → Message → Bool
conflicts conversation_id key m = m.conversation_id == conversation_id && m.client_message_id == key

unfoldable pub find_message : List Message → String → String → Option Message
find_message [] conversation_id key = none
find_message (m ∷ messages) conversation_id key =
    if conflicts conversation_id key m then some m else find_message messages conversation_id key

-- DO UPDATE SET content = EXCLUDED.content
abbrev pub set_content : String → String → String → Message → Message
set_content conversation_id key content m =
    if conflicts conversation_id key m then record m { content = content } else m

pub record NewMessage : Type 0 where
  pub conversation_id : String
  pub user_id : String
  pub role : String
  pub content : String
  pub client_message_id : Option String

abbrev pub message_row : String → String → NewMessage → List Message → Message
message_row fresh key m messages = record {
  id = fresh;
  conversation_id = m.conversation_id;
  user_id = m.user_id;
  role = m.role;
  content = m.content;
  client_message_id = key;
  sequence = max_sequence m.conversation_id messages + 1;
}

abbrev inserted : String → String → NewMessage → Tables → Option Message → String × Tables
inserted fresh key m t (some found) =
    (found.id, record t { messages = map (set_content m.conversation_id key m.content) t.messages })
inserted fresh key m t none =
    (fresh, record t { messages = t.messages ++ (message_row fresh key m t.messages ∷ []) })

-- insert_message: `fresh` is the id that the database makes, `uuid` what uuid4 gives.
unfoldable pub insert_message : String → String → NewMessage → Tables → String × Tables
unfolding find_message max_sequence
insert_message fresh uuid m t =
    let key = idempotency_key m.client_message_id uuid in
    inserted fresh key m t (find_message t.messages m.conversation_id key)
