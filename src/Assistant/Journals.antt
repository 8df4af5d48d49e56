-- ===== src/Assistant/Journals.antt =====
-- JournalService of journal_service.py over the cache of journal_cache_store.py. A key is the parts of
-- the text that the source builds; the cursor of a list is kept as that text, "_" for none.
pub mod Coherence
pub mod Invalidation
pub mod Reads
pub mod Histories
use exobrain.Prelude.{
  ℕ, zero, suc, map, String, Bool, true, false, Option, none, some, List, [], ◌∷◌, ◌==◌, ◌&&◌, ◌||◌,
  nat_eq, if◌then◌else◌,
}

pub data Key : Type 0 where
  journals : String → ℕ → String → Key
  journal_entry : String → String → Key
  journal_messages : String → String → ℕ → Option ℕ → Key

-- The keys of the sets of keys.
pub data Index : Type 0 where
  of_reference : String → String → Index
  of_lists : String → Index

unfoldable pub same_cursor : Option ℕ → Option ℕ → Bool
same_cursor none none = true
same_cursor none (some n) = false
same_cursor (some m) none = false
same_cursor (some m) (some n) = nat_eq m n

unfoldable pub same_key : Key → Key → Bool
unfolding same_cursor
same_key (journals u n c) (journals v m d) = u == v && nat_eq n m && c == d
same_key (journal_entry u r) (journal_entry v s) = u == v && r == s
same_key (journal_messages u r n b) (journal_messages v s m c) =
    u == v && r == s && nat_eq n m && same_cursor b c
same_key (journals u n c) (journal_entry v s) = false
same_key (journals u n c) (journal_messages v s m d) = false
same_key (journal_entry u r) (journals v m d) = false
same_key (journal_entry u r) (journal_messages v s m c) = false
same_key (journal_messages u r n b) (journals v m d) = false
same_key (journal_messages u r n b) (journal_entry v s) = false

unfoldable pub same_index : Index → Index → Bool
same_index (of_reference u r) (of_reference v s) = u == v && r == s
same_index (of_reference u r) (of_lists v) = false
same_index (of_lists u) (of_reference v s) = false
same_index (of_lists u) (of_lists v) = u == v

unfoldable pub has_key : List Key → Key → Bool
unfolding same_key
has_key [] k = false
has_key (j ∷ keys) k = same_key j k || has_key keys k

-- _normalize_cursor
abbrev pub normalize_cursor : Option String → String
normalize_cursor none = "_"
normalize_cursor (some before) = before

abbrev pub key_journals : String → ℕ → Option String → Key
key_journals user_id limit before = journals user_id limit (normalize_cursor before)

-- A value of the cache: a list of payloads, one payload, or the marker for none.
pub data Cached (P : Type 0) : Type 0 where
  rows : List P → Cached P
  entry : P → Cached P
  not_found : Cached P

-- The store: what is under a key, and the members of a set.
pub record Cache (P : Type 0) : Type 0 where
  pub values : Key → Option (Cached P)
  pub members : Index → List Key

-- What json.loads gives back of a value that set_json encodes; `encode` is that for one payload.
abbrev pub encoded : {P : Type 0} → (P → P) → Cached P → Cached P
encoded encode (rows payload) = rows (map encode payload)
encoded encode (entry payload) = entry (encode payload)
encoded encode not_found = not_found

module _ {P : Type 0} where
  unfoldable pub set_value : Key → Cached P → Cache P → Cache P
  unfolding same_key
  set_value key value c = record c {
    values = λ k. if same_key key k then some value else c.values k;
  }

  unfoldable pub set_json : (P → P) → Key → Cached P → Cache P → Cache P
  unfolding set_value
  set_json encode key payload c = set_value key (encoded encode payload) c

  unfoldable pub index_key : Index → Key → Cache P → Cache P
  unfolding same_index
  index_key index key c = record c {
    members = λ i. if same_index index i then key ∷ c.members i else c.members i;
  }

  unfoldable pub delete : Key → Cache P → Cache P
  unfolding same_key
  delete key c = record c { values = λ k. if same_key key k then none else c.values k }

  unfoldable pub delete_indexed : Index → Cache P → Cache P
  unfolding has_key same_index
  delete_indexed index c = record {
    values = λ k. if has_key (c.members index) k then none else c.values k;
    members = λ i. if same_index index i then [] else c.members i;
  }

  -- What is left where the call of that number raises, which is swallowed; a call that raises has
  -- changed nothing.
  abbrev stopped_at : Option ℕ → Cache P → Cache P → Cache P → Cache P → Cache P
  stopped_at none before first second third = third
  stopped_at (some zero) before first second third = before
  stopped_at (some (suc zero)) before first second third = first
  stopped_at (some (suc (suc n))) before first second third = second

  -- _invalidate_for_reference: its three calls of the cache, and which of them raises, if one does.
  unfoldable pub invalidate_for_reference : Option ℕ → String → String → Cache P → Cache P
  unfolding delete delete_indexed
  invalidate_for_reference fault user_id reference c =
      stopped_at fault c (delete (journal_entry user_id reference) c)
        (delete_indexed (of_reference user_id reference)
          (delete (journal_entry user_id reference) c))
        (delete_indexed (of_lists user_id) (
          delete_indexed (of_reference user_id reference)
            (delete (journal_entry user_id reference) c)))

-- The queries of the conversation service, as the payloads that are made of their rows.
pub record Queries (Db P : Type 0) : Type 0 where
  pub list_conversations : Db → String → ℕ → Option String → List P
  pub get_conversation : Db → String → String → Option P
  pub list_messages : Db → String → String → ℕ → Option ℕ → List P

module _ {Db P : Type 0} (service : Queries Db P) (encode : P → P) where
  abbrev miss_journals : String → ℕ → Option String → Db → Cache P → List P × Cache P
  miss_journals user_id limit before db c =
      let payload = service.list_conversations db user_id limit before in
      let key = key_journals user_id limit before in
      (payload, index_key (of_lists user_id) key (set_json encode key (rows payload) c))

  abbrev pub cached_journals :
      Option (Cached P) → String → ℕ → Option String → Db → Cache P → List P × Cache P
  unfolding set_json index_key
  cached_journals (some (rows payload)) user_id limit before db c = (payload, c)
  cached_journals _ user_id limit before db c = miss_journals user_id limit before db c

  unfoldable pub list_journals : String → ℕ → Option String → Db → Cache P → List P × Cache P
  unfolding cached_journals
  list_journals user_id limit before db c =
      cached_journals (c.values (key_journals user_id limit before)) user_id limit before db c

  abbrev pub loaded_journal : Option P → String → String → Cache P → Option P × Cache P
  loaded_journal none user_id reference c =
      (none, set_json encode (journal_entry user_id reference) not_found c)
  loaded_journal (some payload) user_id reference c =
      let key = journal_entry user_id reference in
      (
        some payload,
        index_key (of_reference user_id reference) key (set_json encode key (entry payload) c),
      )

  abbrev pub cached_journal :
      Option (Cached P) → String → String → Db → Cache P → Option P × Cache P
  unfolding set_json index_key
  cached_journal (some not_found) user_id reference db c = (none, c)
  cached_journal (some (entry payload)) user_id reference db c = (some payload, c)
  cached_journal _ user_id reference db c =
      loaded_journal (service.get_conversation db user_id reference) user_id reference c

  unfoldable pub get_journal : String → String → Db → Cache P → Option P × Cache P
  unfolding cached_journal
  get_journal user_id reference db c =
      cached_journal (c.values (journal_entry user_id reference)) user_id reference db c

  abbrev miss_messages : String → String → ℕ → Option ℕ → Db → Cache P → List P × Cache P
  miss_messages user_id reference limit before db c =
      let payload = service.list_messages db user_id reference limit before in
      let key = journal_messages user_id reference limit before in
      (
        payload,
        index_key (of_reference user_id reference) key (set_json encode key (rows payload) c),
      )

  abbrev pub cached_messages :
      Option (Cached P) → String → String → ℕ → Option ℕ → Db → Cache P → List P × Cache P
  unfolding set_json index_key
  cached_messages (some (rows payload)) user_id reference limit before db c = (payload, c)
  cached_messages _ user_id reference limit before db c =
      miss_messages user_id reference limit before db c

  unfoldable pub list_messages : String → String → ℕ → Option ℕ → Db → Cache P → List P × Cache P
  unfolding cached_messages
  list_messages user_id reference limit before db c =
      cached_messages (c.values (journal_messages user_id reference limit before)) user_id reference
        limit before db c

abbrev pub invalidate_some : {P : Type 0} → Option ℕ → String → Option String → Cache P → Cache P
unfolding invalidate_for_reference
invalidate_some fault user_id none c = c
invalidate_some fault user_id (some reference) c =
    invalidate_for_reference fault user_id reference c

module _ {Db P : Type 0} where
  -- ensure_journal: `ensure` is the call of the conversation service.
  unfoldable pub ensure_journal :
      Option ℕ → (Db → String × Db) → String → String → Db → Cache P → String × Db × Cache P
  unfolding invalidate_for_reference
  ensure_journal fault ensure user_id reference db c =
      let (id, db') = ensure db in (id, db', invalidate_for_reference fault user_id reference c)

  -- create_journal_message and create_journal_tool_call: the insertion, and then the query for the
  -- reference of the conversation.
  unfoldable pub create_in_journal :
      Option ℕ
      → (Db → String × Db)
      → (Db → Option String)
      → String
      → Db
      → Cache P
      → String × Db × Cache P
  unfolding invalidate_some
  create_in_journal fault insert reference_of user_id db c =
      let (id, db') = insert db in (id, db', invalidate_some fault user_id (reference_of db') c)
