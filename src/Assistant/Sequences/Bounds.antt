-- ===== src/Assistant/Sequences/Bounds.antt =====
-- What _list_uncommitted_message_sequences gives: every message that is not committed, once, in
-- chunks that are about one journal and within the limit of tokens.
use exobrain.Prelude.{ℕ, ◌+◌, ◌*◌, ◌≤◌, String, Option, some, List, arith, length}
use exobrain.Prelude.Text.{codes}
use exobrain.Assistant.Sequences.{
  Message, fetch, list_uncommitted_message_sequences, count_text_tokens, round_quarters,
}
use exobrain.Assistant.Sequences.Gathering.{IsPartition, message_sequences-IsPartition}

module _ (max_tokens : ℕ) where
  -- For every limit and every table of messages, the chunks one after another are the selected
  -- messages that are not committed, in the order of the query; each chunk has at least one message,
  -- all of one journal, and exceeds the limit of tokens only if it is a single message.
  pub list_uncommitted_message_sequences-IsPartition :
      (messages : List Message) (journal_reference : Option String)
      → IsPartition max_tokens
          (fetch messages journal_reference)
          (list_uncommitted_message_sequences max_tokens messages journal_reference)
  unfolding list_uncommitted_message_sequences
  list_uncommitted_message_sequences-IsPartition messages journal_reference =
      message_sequences-IsPartition max_tokens (fetch messages journal_reference)

-- The count of tokens of a text is within a half of a quarter of its length.
count_text_tokens-near :
    (text : String)
    → (4 * count_text_tokens (some text) ≤ length (codes text) + 2)
      × (length (codes text) ≤ 4 * count_text_tokens (some text) + 2)
unfolding count_text_tokens round_quarters
count_text_tokens-near text = (ground arith, ground arith)
