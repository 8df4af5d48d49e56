-- ===== src/Assistant/Conversations/Sequence.antt =====
-- The messages of a conversation are numbered from 1 in the order in which they were inserted.
use exobrain.Prelude.{
  ℕ, zero, suc, ◌+◌, String, ◌≡◌, refl, sym, ◌∙◌, ap, subst, Bool, true, false, List, [], ◌∷◌, ◌++◌,
  ◌==◌, length, map, if◌then◌else◌, arith, Option-cases, inl, inr, eq_iff, length-append, ltb,
}
use exobrain.Assistant.Sequences.Splitting.{append_nil}
use exobrain.Assistant.Conversations.{
  Message, Tables, NewMessage, max_sequence, find_message, set_content, conflicts, message_row,
  idempotency_key, insert_message,
}

-- The numbers of a conversation's messages, in the order of the table.
abbrev sequences : String → List Message → List ℕ
sequences conversation_id [] = []
sequences conversation_id (m ∷ messages) =
    let rest = sequences conversation_id messages in
    if m.conversation_id == conversation_id then m.sequence ∷ rest else rest

-- first, first + 1, …, of the length
abbrev pub count_from : ℕ → ℕ → List ℕ
count_from first zero = []
count_from first (suc n) = first ∷ count_from (suc first) n

abbrev pub IsNumbered : List Message → Type 0
IsNumbered messages =
    (conversation_id : String)
    → sequences conversation_id messages
      ≡ count_from 1 (length (sequences conversation_id messages))

abbrev largest : List ℕ → ℕ
largest [] = 0
largest (n ∷ ns) = let rest = largest ns in if ltb n rest then rest else n

max_sequence-largest :
    (c : String) (messages : List Message)
    → max_sequence c messages ≡ largest (sequences c messages)
unfolding max_sequence
max_sequence-largest c [] = refl
max_sequence-largest c (m ∷ messages) =
    split (m.conversation_id == c) (max_sequence-largest c messages)
  where
    split :
        (b : Bool)
        → max_sequence c messages ≡ largest (sequences c messages)
        → (if b
            then (if ltb m.sequence (max_sequence c messages)
                then max_sequence c messages
                else m.sequence)
            else max_sequence c messages)
          ≡ largest (if b then m.sequence ∷ sequences c messages else sequences c messages)
    split true e = rw e refl
    split false e = e

largest-count_from : (first n : ℕ) → largest (count_from first (suc n)) ≡ first + n
largest-count_from first zero = ground arith
largest-count_from first (suc n) = ground (arith, largest-count_from (suc first) n)

largest-numbered : (n : ℕ) → largest (count_from 1 n) + 1 ≡ suc n
largest-numbered zero = refl
largest-numbered (suc n) = omega (arith, largest-count_from 1 n)

count_from-add : (first n : ℕ) → count_from first n ++ ((first + n) ∷ []) ≡ count_from first (suc n)
count_from-add first zero = ap (λ k. k ∷ []) (omega arith)
count_from-add first (suc n) =
    ap (λ r. first ∷ r)
      (ap (λ k. count_from (suc first) n ++ (k ∷ [])) (shift first n)
        ∙ count_from-add (suc first) n)
  where
    shift : (a b : ℕ) → a + suc b ≡ suc a + b
    shift a b = omega arith

sequences-append :
    (c : String) (xs ys : List Message) → sequences c (xs ++ ys) ≡ sequences c xs ++ sequences c ys
sequences-append c [] ys = refl
sequences-append c (m ∷ xs) ys = split (m.conversation_id == c) (sequences-append c xs ys)
  where
    split :
        (b : Bool)
        → sequences c (xs ++ ys) ≡ sequences c xs ++ sequences c ys
        → (if b then m.sequence ∷ sequences c (xs ++ ys) else sequences c (xs ++ ys))
          ≡ (if b then m.sequence ∷ sequences c xs else sequences c xs) ++ sequences c ys
    split true e = ap (λ r. m.sequence ∷ r) e
    split false e = e

-- A new content leaves the numbers.
sequences-set_content :
    (c k key content : String) (messages : List Message)
    → sequences c (map (set_content k key content) messages) ≡ sequences c messages
sequences-set_content c k key content [] = refl
sequences-set_content c k key content (m ∷ messages) =
    split (conflicts k key m) (sequences-set_content c k key content messages)
  where
    split :
        (b : Bool)
        → sequences c (map (set_content k key content) messages) ≡ sequences c messages
        → sequences c (
            (if b then record m { content = content } else m)
            ∷ map (set_content k key content) messages)
          ≡ sequences c (m ∷ messages)
    split true e = rw e refl
    split false e = rw e refl

add-IsNumbered :
    (fresh key : String) (m : NewMessage) (messages : List Message)
    → IsNumbered messages
    → IsNumbered (messages ++ (message_row fresh key m messages ∷ []))
add-IsNumbered fresh key m messages h c =
    rw (sequences-append c messages (message_row fresh key m messages ∷ []))
      (split (m.conversation_id == c) refl)
  where
    own : (m.conversation_id == c) ≡ true → m.conversation_id ≡ c
    own t = ground (arith, eq_iff m.conversation_id c)

    next : (xs : List ℕ) → xs ≡ count_from 1 (length xs) → largest xs + 1 ≡ suc (length xs)
    next xs e = ap (λ r. largest r + 1) e ∙ largest-numbered (length xs)

    one_more : (n : ℕ) → suc n ≡ 1 + n
    one_more n = omega arith

    last_one : (n : ℕ) → n + 1 ≡ suc n
    last_one n = omega arith

    extended :
        (xs : List ℕ) (k : ℕ)
        → xs ≡ count_from 1 (length xs)
        → k ≡ suc (length xs)
        → xs ++ (k ∷ []) ≡ count_from 1 (length (xs ++ (k ∷ [])))
    extended xs k e f =
        ap (λ r. r ++ (k ∷ [])) e
        ∙ ap (λ j. count_from 1 (length xs) ++ (j ∷ [])) (f ∙ one_more (length xs))
        ∙ count_from-add 1 (length xs)
        ∙ ap (count_from 1) (sym (length-append xs (k ∷ []) ∙ last_one (length xs)))

    split :
        (b : Bool)
        → (m.conversation_id == c) ≡ b
        → sequences c messages
            ++ (if b then (max_sequence m.conversation_id messages + 1) ∷ [] else [])
          ≡ count_from 1 (
              length (
                sequences c messages
                ++ (if b then (max_sequence m.conversation_id messages + 1) ∷ [] else [])))
    split true e = extended (sequences c messages) _ (h c) (
        ap (λ n. n + 1)
          (ap (λ i. max_sequence i messages) (own e) ∙ max_sequence-largest c messages)
        ∙ next _ (h c))
    split false e =
        subst (λ xs. xs ≡ count_from 1 (length xs)) (sym (append_nil (sequences c messages))) (h c)

-- If the messages of every conversation are numbered 1, 2, … in the order of the table, they are so
-- after a message is inserted, new or not.
pub insert_message-IsNumbered :
    (fresh uuid : String) (m : NewMessage) (t : Tables)
    → IsNumbered t.messages
    → IsNumbered (insert_message fresh uuid m t).1.messages
unfolding insert_message
insert_message-IsNumbered fresh uuid m t h =
    let key = idempotency_key m.client_message_id uuid in
    elim (Option-cases (find_message t.messages m.conversation_id key)) [
      | inl new ↦ rw new (add-IsNumbered fresh key m t.messages h)
      | inr (found, known) ↦
          rw known
            (λ c. rw (sequences-set_content c m.conversation_id key m.content t.messages) (h c))
    ]
