-- ===== src/Assistant/Conversations/Retries.antt =====
-- A message that is sent again, and a conversation that is ensured again.
use exobrain.Prelude.{
  suc, String, ◌≡◌, refl, ◌∙◌, ap, subst, Bool, true, false, none, some, List, [], ◌∷◌, ◌++◌, ◌==◌,
  ◌&&◌, length, map, if◌then◌else◌, arith, Option-cases, inl, inr, eq_refl,
}
use exobrain.Assistant.Conversations.{
  Conversation, Message, Tables, NewMessage, is_of, find_message, set_content, conflicts,
  message_row, idempotency_key, insert_message, find_conversation, ensure_conversation,
}

both_refl : (s t : String) → (s == s && t == t) ≡ true
both_refl s t = ground (arith, eq_refl s, eq_refl t)

find_message-add :
    (messages : List Message) (c key : String) (m : Message)
    → conflicts c key m ≡ true
    → find_message messages c key ≡ none
    → find_message (messages ++ (m ∷ [])) c key ≡ some m
unfolding find_message
find_message-add [] c key m h n = rw h refl
find_message-add (x ∷ messages) c key m h n =
    split (conflicts c key x) (find_message-add messages c key m h) n
  where
    split :
        (b : Bool)
        → (find_message messages c key ≡ none → find_message (messages ++ (m ∷ [])) c key ≡ some m)
        → (if b then some x else find_message messages c key) ≡ none
        → (if b then some x else find_message (messages ++ (m ∷ [])) c key) ≡ some m
    split true rest e = cc
    split false rest e = rest e

abbrev with_content : String → Message → Message
with_content content m = record m { content = content }

find_message-set_content :
    (messages : List Message) (c key content : String) (found : Message)
    → find_message messages c key ≡ some found
    → find_message (map (set_content c key content) messages) c key
      ≡ some (record found { content = content })
unfolding find_message
find_message-set_content [] c key content found h = cc
find_message-set_content (x ∷ messages) c key content found h =
    split (conflicts c key x) refl (find_message-set_content messages c key content found) h
  where
    changed :
        some x ≡ some found → some (with_content content x) ≡ some (with_content content found)
    changed e = ap some (ap (with_content content) (same e))
      where
        same : some x ≡ some found → x ≡ found
        same e = cc

    split :
        (b : Bool)
        → conflicts c key x ≡ b
        → (find_message messages c key ≡ some found
            → find_message (map (set_content c key content) messages) c key
              ≡ some (with_content content found))
        → (if b then some x else find_message messages c key) ≡ some found
        → (if conflicts c key (if b then with_content content x else x)
            then some (if b then with_content content x else x)
            else find_message (map (set_content c key content) messages) c key)
          ≡ some (with_content content found)
    split true e rest q = rw e (changed q)
    split false e rest q = rw e (rest q)

length-map {ℓ} : {A B : Type ℓ} (f : A → B) (xs : List A) → length (map f xs) ≡ length xs
length-map f [] = refl
length-map f (x ∷ xs) = ap suc (length-map f xs)

-- What a message that was sent again finds: its row, with its id and the last content.
pub record IsResent (m : NewMessage) (key : String) (id : String) (t t' : Tables) : Type 0 where
  pub found : Message
  pub in_table : find_message t'.messages m.conversation_id key ≡ some found
  pub same_id : found.id ≡ id
  pub last_content : found.content ≡ m.content
  pub no_new_row : length t'.messages ≡ length t.messages

-- Inserted with a key that its conversation has, a message is the row of that key.
IsResent-known :
    (fresh uuid : String) (m : NewMessage) (t : Tables) (found : Message)
    → find_message t.messages m.conversation_id (idempotency_key m.client_message_id uuid)
      ≡ some found
    → ((insert_message fresh uuid m t).0 ≡ found.id)
      × IsResent m
          (idempotency_key m.client_message_id uuid)
          found.id
          t
          (insert_message fresh uuid m t).1
unfolding insert_message
IsResent-known fresh uuid m t found h =
    let key = idempotency_key m.client_message_id uuid in
    rw h (
      refl,
      record {
        found = record found { content = m.content };
        in_table = find_message-set_content t.messages m.conversation_id key m.content found h;
        same_id = refl;
        last_content = refl;
        no_new_row = length-map _ t.messages;
      },
    )

-- After an insertion its key is found, with the id that it returned.
find_message-insert_message :
    (fresh uuid : String) (m : NewMessage) (t : Tables)
    → (found : Message) × (find_message
          (insert_message fresh uuid m t).1.messages
          m.conversation_id
          (idempotency_key m.client_message_id uuid)
        ≡ some found)
      × (found.id ≡ (insert_message fresh uuid m t).0)
unfolding insert_message
find_message-insert_message fresh uuid m t =
    let key = idempotency_key m.client_message_id uuid in
    elim (Option-cases (find_message t.messages m.conversation_id key)) [
      | inl new ↦ rw new (
        message_row fresh key m t.messages,
        find_message-add t.messages m.conversation_id key (message_row fresh key m t.messages)
            (both_refl m.conversation_id key) new,
        refl,
      )
      | inr (found, known) ↦ rw known (
        record found { content = m.content },
        find_message-set_content t.messages m.conversation_id key m.content found known,
        refl,
      )
    ]

-- A message that is sent again with its key, in its conversation, gets the id that it got at first,
-- and no new row: its row has the content that was sent last.
pub insert_message-IsResent :
    (fresh uuid fresh' uuid' : String) (m m' : NewMessage) (t : Tables)
    → m'.conversation_id ≡ m.conversation_id
    → idempotency_key m'.client_message_id uuid' ≡ idempotency_key m.client_message_id uuid
    → let (id, t1) = insert_message fresh uuid m t in
      let (id', t2) = insert_message fresh' uuid' m' t1 in
      (id' ≡ id) × IsResent m' (idempotency_key m'.client_message_id uuid') id t1 t2
insert_message-IsResent fresh uuid fresh' uuid' m m' t same_conversation same_key =
    let (found, in_table, id) = find_message-insert_message fresh uuid m t in
    let t1 = (insert_message fresh uuid m t).1 in
    let known : find_message t1.messages m'.conversation_id
          (idempotency_key m'.client_message_id uuid')
        ≡ some found =
      ap (λ c. find_message t1.messages c (idempotency_key m'.client_message_id uuid'))
        same_conversation
      ∙ ap (find_message t1.messages m.conversation_id) same_key
      ∙ in_table in
    let (id', resent) = IsResent-known fresh' uuid' m' t1 found known in
    (
      id' ∙ id,
      subst
          (λ i.
            IsResent m' (idempotency_key m'.client_message_id uuid') i t1
              (insert_message fresh' uuid' m' t1).1)
          id resent,
    )

find_conversation-add :
    (conversations : List Conversation) (user_id reference : String) (c : Conversation)
    → is_of user_id reference c ≡ true
    → find_conversation conversations user_id reference ≡ none
    → find_conversation (conversations ++ (c ∷ [])) user_id reference ≡ some c
unfolding find_conversation
find_conversation-add [] user_id reference c h n = rw h refl
find_conversation-add (x ∷ conversations) user_id reference c h n =
    split (is_of user_id reference x) (find_conversation-add conversations user_id reference c h) n
  where
    split :
        (b : Bool)
        → (find_conversation conversations user_id reference ≡ none
            → find_conversation (conversations ++ (c ∷ [])) user_id reference ≡ some c)
        → (if b then some x else find_conversation conversations user_id reference) ≡ none
        → (if b then some x else find_conversation (conversations ++ (c ∷ [])) user_id reference)
          ≡ some c
    split true rest e = cc
    split false rest e = rest e

-- A conversation that is ensured again is the same one, and no row is added.
ensure_conversation-again :
    (fresh fresh' user_id reference : String) (t : Tables)
    → let (id, t1) = ensure_conversation fresh user_id reference t in
      ensure_conversation fresh' user_id reference t1 ≡ (id, t1)
unfolding ensure_conversation
ensure_conversation-again fresh fresh' user_id reference t =
    elim (Option-cases (find_conversation t.conversations user_id reference)) [
      | inl new ↦ rw new (
          rw
            (find_conversation-add t.conversations user_id reference
              (record { id = fresh; user_id = user_id; reference = reference })
              (both_refl user_id reference) new)
            refl)
      | inr (c, known) ↦ rw known (rw known refl)
    ]
