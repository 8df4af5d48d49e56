-- ===== src/Assistant/Sequences.antt =====
-- _list_uncommitted_message_sequences of knowledge_service.py: the messages that are not committed
-- to the knowledge base, in the chunks that become jobs.
pub mod Splitting
pub mod Gathering
pub mod Bounds
use exobrain.Prelude.{
  ℕ, zero, suc, ◌+◌, String, Bool, true, false, not, Option, none, some, List, [], ◌∷◌, ◌++◌, ◌==◌,
  ◌&&◌, length, filter_by, ltb, if◌then◌else◌,
}
use Prim.Native.Nat.{◌/◌, ◌%◌}
use exobrain.Prelude.Text.{codes}

-- A message of a user with the reference of its conversation; `created_at` is in ISO format.
pub record Message : Type 0 where
  pub id : String
  pub reference : String
  pub role : String
  pub content : Option String
  pub sequence : ℕ
  pub created_at : Option String
  pub committed_to_knowledge_base : Bool

-- A row of the query: `previous_committed` is null for the first message of a conversation.
pub record Row : Type 0 where
  pub message : Message
  pub previous_committed : Option Bool

-- round(n / 4): a tie goes to the even number.
unfoldable pub round_quarters : ℕ → ℕ
round_quarters n =
    let rest = n % 4 in
    if ltb rest 2 then n / 4 else if ltb 2 rest then n / 4 + 1 else n / 4 + (n / 4) % 2

-- _count_text_tokens; for the empty text both branches give 0.
unfoldable pub count_text_tokens : Option String → ℕ
unfolding round_quarters
count_text_tokens none = 0
count_text_tokens (some text) = round_quarters (length (codes text))

-- The messages that the query finds, in its order: by reference, then by sequence. A user has one
-- conversation for a reference, so LAG looks at the message before it with the same reference.
abbrev lag : Option Message → Message → Option Bool
lag none m = none
lag (some p) m = if p.reference == m.reference then some p.committed_to_knowledge_base else none

abbrev pub with_lag : Option Message → List Message → List Row
with_lag previous [] = []
with_lag previous (m ∷ messages) =
    record { message = m; previous_committed = lag previous m } ∷ with_lag (some m) messages

-- $2::text IS NULL OR c.reference = $2
abbrev pub is_selected : Option String → Message → Bool
is_selected none m = true
is_selected (some reference) m = m.reference == reference

abbrev pub fetch : List Message → Option String → List Row
fetch messages journal_reference =
    with_lag none (filter_by (is_selected journal_reference) messages)

abbrev pub is_committed : Row → Bool
is_committed row = row.message.committed_to_knowledge_base

abbrev pub tokens_of : Row → ℕ
tokens_of row = count_text_tokens row.message.content

abbrev pub is_empty {ℓ} : {A : Type ℓ} → List A → Bool
is_empty [] = true
is_empty (x ∷ xs) = false

-- The variables of the loop of _split_by_token_limit.
pub record Split : Type 0 where
  pub chunks : List (List Row)
  pub chunk : List Row
  pub chunk_tokens : ℕ

-- The variables of the loop over the rows.
pub record Loop : Type 0 where
  pub chunks : List (List Row)
  pub current_chunk : List Row
  pub current_reference : Option String

module _ (max_tokens : ℕ) where
  -- chunks.append(chunk), where the row does not fit
  abbrev pub make_room : Split → Row → Split
  make_room s row =
      if not (is_empty s.chunk) && ltb max_tokens (s.chunk_tokens + tokens_of row)
      then record { chunks = s.chunks ++ (s.chunk ∷ []); chunk = []; chunk_tokens = 0 }
      else s

  abbrev pub add_row : Split → Row → Split
  add_row s row = record s {
    chunk = s.chunk ++ (row ∷ []);
    chunk_tokens = s.chunk_tokens + tokens_of row;
  }

  abbrev pub split_rows : Split → List Row → Split
  split_rows s [] = s
  split_rows s (row ∷ rows) = split_rows (add_row (make_room s row) row) rows

  abbrev pub split_chunks : Split → List (List Row)
  split_chunks s = if is_empty s.chunk then s.chunks else s.chunks ++ (s.chunk ∷ [])

  unfoldable pub split_by_token_limit : List Row → List (List Row)
  unfolding count_text_tokens
  split_by_token_limit rows =
      split_chunks (split_rows (record { chunks = []; chunk = []; chunk_tokens = 0 }) rows)

  -- if current_chunk: conversation_chunks.extend(…); current_chunk = []
  abbrev pub flush : Loop → Loop
  flush l = if is_empty l.current_chunk then l else (record l {
    chunks = l.chunks ++ split_by_token_limit l.current_chunk;
    current_chunk = [];
  })

  abbrev pub first_reference : Option String → Row → String
  first_reference none row = row.message.reference
  first_reference (some reference) row = reference

  -- The two tests of the reference of a row that is not committed.
  abbrev pub at_reference : Loop → Row → Loop
  at_reference l row =
      let reference = first_reference l.current_reference row in
      if row.message.reference == reference
      then record l { current_reference = some reference }
      else record (flush l) { current_reference = some row.message.reference }

  abbrev is_true : Option Bool → Bool
  is_true (some true) = true
  is_true _ = false

  abbrev pub after_committed : Loop → Row → Loop
  after_committed l row = if is_true row.previous_committed then flush l else l

  abbrev pub add_message : Loop → Row → Loop
  add_message l row = record l { current_chunk = l.current_chunk ++ (row ∷ []) }

  abbrev pub take_row : Loop → Row → Loop
  take_row l row =
      if is_committed row
      then record (flush l) { current_reference = some row.message.reference }
      else add_message (after_committed (at_reference l row) row) row

  abbrev pub take_rows : Loop → List Row → Loop
  take_rows l [] = l
  take_rows l (row ∷ rows) = take_rows (take_row l row) rows

  unfoldable pub message_sequences : List Row → List (List Row)
  unfolding split_by_token_limit
  message_sequences rows =
      (flush (
        take_rows (record { chunks = []; current_chunk = []; current_reference = none })
          rows)).chunks

  -- _list_uncommitted_message_sequences
  unfoldable pub list_uncommitted_message_sequences : List Message → Option String → List (List Row)
  unfolding message_sequences
  list_uncommitted_message_sequences messages journal_reference =
      message_sequences (fetch messages journal_reference)
