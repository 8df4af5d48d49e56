-- ===== src/Assistant/Updates/Remaining.antt =====
-- Once its chunks are committed, a query finds nothing any more.
use exobrain.Prelude.{
  ℕ, String, ◌≡◌, ◌⊎◌, inl, inr, refl, sym, ap, ◌∙◌, Bool, true, false, not, ◌||◌, Option, none,
  some, List, [], ◌∷◌, ◌++◌, map, arith, eq_refl, All, All-map_to, filter_by, Bool-cases,
  if◌then◌else◌, if_ind,
}
use exobrain.Prelude.Text.{contains}
use exobrain.Assistant.Sequences.{
  Message, Row, is_selected, with_lag, list_uncommitted_message_sequences,
}
use exobrain.Assistant.Sequences.Splitting.{IsBounded, joined}
use exobrain.Assistant.Sequences.Gathering.{is_pending}
use exobrain.Assistant.Sequences.Bounds.{list_uncommitted_message_sequences-IsPartition}
use exobrain.Assistant.Updates.{row_ids, commit}
use exobrain.Assistant.Updates.Accounts.{commit_all}

-- The message is committed, or its id is one of `ids`.
abbrev Listed : List String → Message → Type 0
Listed ids m = (m.committed_to_knowledge_base ≡ true) ⊎ (contains ids m.id ≡ true)

abbrev SelectedListed : Option String → List String → Message → Type 0
SelectedListed reference ids m = is_selected reference m ≡ true → Listed ids m

pending_ids : List Row → List String
pending_ids rows = row_ids (filter_by is_pending rows)

contains-cons :
    (x : String) (ids : List String) (k : String)
    → contains ids k ≡ true
    → contains (x ∷ ids) k ≡ true
unfolding contains
contains-cons x ids k h = ground arith

Listed-cons : (x : String) (ids : List String) (m : Message) → Listed ids m → Listed (x ∷ ids) m
Listed-cons x ids m (inl c) = inl c
Listed-cons x ids m (inr h) = inr (contains-cons x ids m.id h)

-- Every message of the query is committed, or one of its rows that are not.
with_lag-Listed :
    (previous : Option Message) (messages : List Message)
    → All (Listed (pending_ids (with_lag previous messages))) messages
unfolding pending_ids contains
with_lag-Listed previous [] = tt
with_lag-Listed previous (m ∷ messages) =
    if_ind (λ rows. Listed (row_ids rows) m × All (Listed (row_ids rows)) messages)
      (not m.committed_to_knowledge_base)
      (λ p. (
        inr (own _),
        All-map_to _ _ (Listed-cons m.id _) messages (with_lag-Listed (some m) messages),
      ))
      λ c. (inl (ground arith), with_lag-Listed (some m) messages)
  where
    own : (ids : List String) → contains (m.id ∷ ids) m.id ≡ true
    own ids = ground (arith, eq_refl m.id)

filter_by-Listed :
    (reference : Option String) (ids : List String) (messages : List Message)
    → All (Listed ids) (filter_by (is_selected reference) messages)
    → All (SelectedListed reference ids) messages
filter_by-Listed reference ids [] h = tt
filter_by-Listed reference ids (m ∷ messages) h =
    split (λ a. filter_by-Listed reference ids messages a) (is_selected reference m) refl h
  where
    split :
        (All (Listed ids) (filter_by (is_selected reference) messages)
          → All (SelectedListed reference ids) messages)
        → (b : Bool) → is_selected reference m ≡ b
        → All (Listed ids) (
            if b
            then m ∷ filter_by (is_selected reference) messages
            else filter_by (is_selected reference) messages)
        → SelectedListed reference ids m × All (SelectedListed reference ids) messages
    split rest true e a = ((λ t. a.0), rest a.1)
    split rest false e a = ((λ t. cc), rest a)

row_ids-append : (xs ys : List Row) → row_ids (xs ++ ys) ≡ row_ids xs ++ row_ids ys
row_ids-append [] ys = refl
row_ids-append (x ∷ xs) ys = ap (λ r. x.message.id ∷ r) (row_ids-append xs ys)

contains-append :
    (xs ys : List String) (k : String) → contains (xs ++ ys) k ≡ (contains xs k || contains ys k)
unfolding contains
contains-append [] ys k = refl
contains-append (x ∷ xs) ys k = ground (arith, contains-append xs ys k)

is_selected-commit :
    (reference : Option String) (ids : List String) (m : Message)
    → is_selected reference (commit ids m) ≡ is_selected reference m
is_selected-commit none ids m = refl
is_selected-commit (some reference) ids m = refl

Listed-commit : (xs ys : List String) (m : Message) → Listed (xs ++ ys) m → Listed ys (commit xs m)
Listed-commit xs ys m (inl c) = inl (ground arith)
Listed-commit xs ys m (inr h) = elim (Bool-cases (contains xs m.id)) [
  | inl known ↦ inl (ground arith)
  | inr unknown ↦ inr (ground (arith, contains-append xs ys m.id))
]

commit_all-committed :
    (reference : Option String) (sequences : List (List Row)) (messages : List Message)
    → All (SelectedListed reference (row_ids (joined sequences))) messages
    → All (SelectedListed reference []) (commit_all sequences messages)
commit_all-committed reference [] messages h = h
commit_all-committed reference (rows ∷ rest) messages h =
    commit_all-committed reference rest _ (step messages h)
  where
    step :
        (messages : List Message)
        → All (SelectedListed reference (row_ids (rows ++ joined rest))) messages
        → All
            (SelectedListed reference (row_ids (joined rest)))
            (map (commit (row_ids rows)) messages)
    step [] h = tt
    step (m ∷ messages) h = (
      (λ s. Listed-commit (row_ids rows) (row_ids (joined rest)) m (
          rw⁻¹ (row_ids-append rows (joined rest))
            (h.0 (sym (is_selected-commit reference (row_ids rows) m) ∙ s)))),
      step messages h.1,
    )

pending-none :
    (reference : Option String) (previous : Option Message) (messages : List Message)
    → All (SelectedListed reference []) messages
    → filter_by is_pending (with_lag previous (filter_by (is_selected reference) messages)) ≡ []
unfolding contains
pending-none reference previous [] h = refl
pending-none reference previous (m ∷ messages) h =
    split (λ p. pending-none reference p messages h.1) (is_selected reference m) refl
  where
    dropped :
        (row : Row) (rows : List Row) (b : Bool)
        → b ≡ true
        → (if not b then row ∷ rows else rows) ≡ rows
    dropped row rows b c = ground arith

    is_committed : Listed [] m → m.committed_to_knowledge_base ≡ true
    is_committed (inl c) = c
    is_committed (inr h) = cc

    split :
        ((p : Option Message)
          → filter_by is_pending (with_lag p (filter_by (is_selected reference) messages)) ≡ [])
        → (b : Bool) → is_selected reference m ≡ b
        → filter_by is_pending (
            with_lag previous (
              if b
              then m ∷ filter_by (is_selected reference) messages
              else filter_by (is_selected reference) messages))
          ≡ []
    split rest true e =
        dropped _ _ m.committed_to_knowledge_base (is_committed (h.0 e)) ∙ rest (some m)
    split rest false e = rest previous

chunks-none :
    (max_tokens : ℕ) (chunks : List (List Row))
    → All (IsBounded max_tokens) chunks
    → joined chunks ≡ []
    → chunks ≡ []
chunks-none max_tokens [] b e = refl
chunks-none max_tokens ([] ∷ chunks) b e = absurd (not_empty b.0.proper)
  where
    not_empty : true ≡ false → ⊥
    not_empty f = cc
chunks-none max_tokens ((row ∷ rows) ∷ chunks) b e = cc

-- Once its chunks are committed, nothing of a query is left.
pub none_left :
    (max_tokens : ℕ) (reference : Option String) (messages : List Message)
    → list_uncommitted_message_sequences max_tokens
        (commit_all (list_uncommitted_message_sequences max_tokens messages reference) messages)
        reference
      ≡ []
unfolding pending_ids
none_left max_tokens reference messages =
    let before = list_uncommitted_message_sequences-IsPartition max_tokens messages reference in
    let found = list_uncommitted_message_sequences max_tokens messages reference in
    let after =
      list_uncommitted_message_sequences-IsPartition max_tokens (commit_all found messages)
        reference in
    chunks-none max_tokens _ after.bounded (
      after.complete
      ∙ pending-none reference none (commit_all found messages) (
          commit_all-committed reference found messages (
            rw before.complete (
              filter_by-Listed reference _ messages
                (with_lag-Listed none (filter_by (is_selected reference) messages))))))
