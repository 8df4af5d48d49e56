-- ===== src/Assistant/Journals/Coherence.antt =====
-- The cache never holds what the conversation service would no longer answer.
use exobrain.Prelude.{
  ℕ, String, ◌≡◌, ◌⊎◌, inl, inr, refl, sym, ◌∙◌, ap, subst, Bool, true, false, Option, none, some,
  ◌∷◌, ◌==◌, ◌&&◌, nat_eq_refl, eq_iff, eq_refl, if◌then◌else◌, arith, Bool-cases,
}
use exobrain.Assistant.Journals.{
  Key, journals, journal_entry, journal_messages, Index, of_reference, of_lists, same_cursor,
  same_key, same_index, has_key, Cached, rows, entry, not_found, Cache, set_value, index_key,
  Queries,
}

same_cursor-eq : (b c : Option ℕ) → same_cursor b c ≡ true → b ≡ c
unfolding same_cursor
same_cursor-eq none none h = refl
same_cursor-eq none (some n) h = cc
same_cursor-eq (some m) none h = cc
same_cursor-eq (some m) (some n) h = ap some (ground arith)

same_cursor_refl : (b : Option ℕ) → same_cursor b b ≡ true
unfolding same_cursor
same_cursor_refl none = refl
same_cursor_refl (some n) = nat_eq_refl n

same_key-eq : (j k : Key) → same_key j k ≡ true → j ≡ k
unfolding same_key
same_key-eq (journals u n c) (journals v m d) h =
    let eu : u ≡ v = ground (arith, eq_iff u v) in
    let en : n ≡ m = ground arith in let ec : c ≡ d = ground (arith, eq_iff c d) in cc
same_key-eq (journal_entry u r) (journal_entry v s) h =
    let eu : u ≡ v = ground (arith, eq_iff u v) in let er : r ≡ s = ground (arith, eq_iff r s) in cc
same_key-eq (journal_messages u r n b) (journal_messages v s m c) h =
    let eu : u ≡ v = ground (arith, eq_iff u v) in
    let er : r ≡ s = ground (arith, eq_iff r s) in
    let en : n ≡ m = ground arith in let eb : b ≡ c = same_cursor-eq b c (ground arith) in cc
same_key-eq (journals u n c) (journal_entry v s) h = cc
same_key-eq (journals u n c) (journal_messages v s m d) h = cc
same_key-eq (journal_entry u r) (journals v m d) h = cc
same_key-eq (journal_entry u r) (journal_messages v s m c) h = cc
same_key-eq (journal_messages u r n b) (journals v m d) h = cc
same_key-eq (journal_messages u r n b) (journal_entry v s) h = cc

same_key_refl : (k : Key) → same_key k k ≡ true
unfolding same_key
same_key_refl (journals u n c) = ground (arith, eq_refl u, eq_refl c, nat_eq_refl n)
same_key_refl (journal_entry u r) = ground (arith, eq_refl u, eq_refl r)
same_key_refl (journal_messages u r n b) =
    ground (arith, eq_refl u, eq_refl r, nat_eq_refl n, same_cursor_refl b)

-- The cursor that the text of a key stands for.
abbrev pub cursor_of : String → Option String
cursor_of c = if c == "_" then none else some c

abbrev pub index_of : Key → Option Index
index_of (journals u n c) = some (of_lists u)
index_of (journal_entry u r) = none
index_of (journal_messages u r n b) = some (of_reference u r)

module _ {Db P : Type 0} (service : Queries Db P) where
  abbrev pub entry_value : Option P → Cached P
  entry_value none = not_found
  entry_value (some e) = entry e

  -- What the service answers to the request of a key.
  abbrev pub answer_to : Db → Key → Cached P
  answer_to db (journals u n c) = rows (service.list_conversations db u n (cursor_of c))
  answer_to db (journal_entry u r) = entry_value (service.get_conversation db u r)
  answer_to db (journal_messages u r n b) = rows (service.list_messages db u r n b)

  abbrev pub IsIndexedBy : Cache P → Key → Option Index → Type 0
  IsIndexedBy c k none = Unit
  IsIndexedBy c k (some i) = has_key (c.members i) k ≡ true

  -- Every value is the answer of the service, and its key is a member of its index.
  pub record IsCoherent (db : Db) (c : Cache P) : Type 0 where
    pub fresh : (k : Key) (v : Cached P) → c.values k ≡ some v → v ≡ answer_to db k
    pub indexed : (k : Key) (v : Cached P) → c.values k ≡ some v → IsIndexedBy c k (index_of k)

  -- A write to one journal leaves the answers about the others, and those to the lists of the other
  -- users.
  pub record Touches (user_id reference : String) (db db' : Db) : Type 0 where
    pub lists :
        (v : String) (n : ℕ) (b : Option String)
        → (user_id == v) ≡ false
        → service.list_conversations db' v n b ≡ service.list_conversations db v n b
    pub conversation :
        (v s : String)
        → (user_id == v && reference == s) ≡ false
        → service.get_conversation db' v s ≡ service.get_conversation db v s
    pub messages_of :
        (v s : String) (n : ℕ) (b : Option ℕ)
        → (user_id == v && reference == s) ≡ false
        → service.list_messages db' v s n b ≡ service.list_messages db v s n b

  some_inj : (v w : Cached P) → some v ≡ some w → w ≡ v
  some_inj v w e = cc

  -- A value that is written: the answer of the service, its key indexed.
  unfoldable pub store : Option Index → Key → Cached P → Cache P → Cache P
  store none k v c = set_value k v c
  store (some i) k v c = index_key i k (set_value k v c)

  store-values :
      (i : Option Index) (key k : Key) (v : Cached P) (c : Cache P)
      → (store i key v c).values k ≡ (if same_key key k then some v else c.values k)
  unfolding store set_value index_key
  store-values none key k v c = refl
  store-values (some i) key k v c = refl

  index_key-members :
      (i : Index) (key k : Key) (c : Cache P) (j : Index)
      → has_key (c.members j) k ≡ true
      → has_key ((index_key i key c).members j) k ≡ true
  unfolding index_key has_key
  index_key-members i key k c j h = split (same_index i j)
    where
      split : (b : Bool) → has_key (if b then key ∷ c.members j else c.members j) k ≡ true
      split true = ground (arith, h)
      split false = h

  store-members :
      (i : Option Index) (key k : Key) (v : Cached P) (c : Cache P) (j : Index)
      → has_key (c.members j) k ≡ true
      → has_key ((store i key v c).members j) k ≡ true
  unfolding store set_value
  store-members none key k v c j h = h
  store-members (some i) key k v c j h = index_key-members i key k (set_value key v c) j h

  same_index_refl : (i : Index) → same_index i i ≡ true
  unfolding same_index
  same_index_refl (of_reference u r) = ground (arith, eq_refl u, eq_refl r)
  same_index_refl (of_lists u) = eq_refl u

  store-own :
      (i : Option Index) (key : Key) (v : Cached P) (c : Cache P)
      → IsIndexedBy (store i key v c) key i
  unfolding store set_value index_key has_key
  store-own none key v c = tt
  store-own (some i) key v c = rw (same_index_refl i) (ground (arith, same_key_refl key))

  kept_index :
      (i j : Option Index) (key k : Key) (v : Cached P) (c : Cache P)
      → IsIndexedBy c k j
      → IsIndexedBy (store i key v c) k j
  kept_index i none key k v c h = tt
  kept_index i (some j) key k v c h = store-members i key k v c j h

  pub store-IsCoherent :
      (db : Db) (key : Key) (v : Cached P) (c : Cache P)
      → v ≡ answer_to db key
      → IsCoherent db c
      → IsCoherent db (store (index_of key) key v c)
  store-IsCoherent db key v c e x = record {
    fresh = λ k w h.
        fresh_at k w (Bool-cases (same_key key k))
          (sym (store-values (index_of key) key k v c) ∙ h);
    indexed = λ k w h.
        indexed_at k w (Bool-cases (same_key key k))
          (sym (store-values (index_of key) key k v c) ∙ h);
  }
    where
      fresh_at :
          (k : Key) (w : Cached P)
          → (same_key key k ≡ true) ⊎ (same_key key k ≡ false)
          → (if same_key key k then some v else c.values k) ≡ some w
          → w ≡ answer_to db k
      fresh_at k w (inl t) h =
          some_inj v w (sym (rw t refl) ∙ h) ∙ e ∙ ap (answer_to db) (same_key-eq key k t)
      fresh_at k w (inr f) h = x.fresh k w (sym (rw f refl) ∙ h)

      indexed_at :
          (k : Key) (w : Cached P)
          → (same_key key k ≡ true) ⊎ (same_key key k ≡ false)
          → (if same_key key k then some v else c.values k) ≡ some w
          → IsIndexedBy (store (index_of key) key v c) k (index_of k)
      indexed_at k w (inl t) h =
          subst (λ j. IsIndexedBy (store (index_of key) key v c) j (index_of j))
            (same_key-eq key k t) (store-own (index_of key) key v c)
      indexed_at k w (inr f) h =
          kept_index (index_of key) (index_of k) key k v c (x.indexed k w (sym (rw f refl) ∙ h))

  -- A set may have more keys than the values that are there.
  pub index_key-IsCoherent :
      (db : Db) (i : Index) (key : Key) (c : Cache P)
      → IsCoherent db c
      → IsCoherent db (index_key i key c)
  unfolding index_key
  index_key-IsCoherent db i key c x = record {
    fresh = x.fresh;
    indexed = λ k v h. more (index_of k) k (x.indexed k v h);
  }
    where
      more : (j : Option Index) (k : Key) → IsIndexedBy c k j → IsIndexedBy (index_key i key c) k j
      more none k h = tt
      more (some j) k h = index_key-members i key k c j h
