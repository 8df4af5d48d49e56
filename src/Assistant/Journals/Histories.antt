-- ===== src/Assistant/Journals/Histories.antt =====
-- Histories of reads, writes and expirations, one after another.
use exobrain.Prelude.{ℕ, String, ◌≡◌, sym, subst, Option, none, some, [], map, ap, ◌⊎◌}
use exobrain.Assistant.Journals.{
  Key, Cached, Cache, Queries, list_journals, get_journal, list_messages, ensure_journal,
  create_in_journal, invalidate_some,
}
use exobrain.Assistant.Journals.Coherence.{index_of, IsCoherent, IsIndexedBy, Touches}
use exobrain.Assistant.Journals.Invalidation.{invalidate-IsCoherent}
use exobrain.Assistant.Journals.Reads.{
  IsCursor, encoded_service, map_option, list_journals-IsCurrent, get_journal-IsCurrent,
  list_messages-IsCurrent,
}

module _ {Db P : Type 0} (service : Queries Db P) (encode : P → P) where
  abbrev State : Type 0
  State = Db × Cache P

  -- Values that expired are gone; what is left is as it was.
  pub record IsExpired (c c' : Cache P) : Type 0 where
    pub values_left : (k : Key) (v : Cached P) → c'.values k ≡ some v → c.values k ≡ some v
    pub members_left : c'.members ≡ c.members

  abbrev kept : Queries Db P
  kept = encoded_service encode service

  -- One request or one expiration. A write changes the answers about its own journal only, and no
  -- call of the cache raises in its invalidation.
  pub data Step : Db × Cache P → Db × Cache P → Type 0 where
    lists :
        (user_id : String) (limit : ℕ) (before : Option String) (db : Db) (c : Cache P)
        → IsCursor before
        → Step (db, c) (db, (list_journals service encode user_id limit before db c).1)
    gets :
        (user_id reference : String) (db : Db) (c : Cache P)
        → Step (db, c) (db, (get_journal service encode user_id reference db c).1)
    lists_messages :
        (user_id reference : String) (limit : ℕ) (before : Option ℕ) (db : Db) (c : Cache P)
        → Step (db, c) (db, (list_messages service encode user_id reference limit before db c).1)
    ensures :
        (ensure : Db → String × Db) (user_id reference : String) (db : Db) (c : Cache P)
        → Touches service user_id reference db (ensure db).1
        → Step
            (db, c)
            (
              (ensure_journal none ensure user_id reference db c).1,
              (ensure_journal none ensure user_id reference db c).2,
            )
    creates :
        (insert : Db → String × Db) (reference_of : Db → Option String) (user_id reference : String)
        (db : Db) (c : Cache P)
        → reference_of (insert db).1 ≡ some reference
        → Touches service user_id reference db (insert db).1
        → Step
            (db, c)
            (
              (create_in_journal none insert reference_of user_id db c).1,
              (create_in_journal none insert reference_of user_id db c).2,
            )
    expires : (db : Db) (c c' : Cache P) → IsExpired c c' → Step (db, c) (db, c')

  -- The states that a history reaches.
  pub data Reaches (start : Db × Cache P) : Db × Cache P → Type 0 where
    start_here : Reaches start start
    then_step : (s t : Db × Cache P) → Reaches start s → Step s t → Reaches start t

  expires-IsCoherent :
      (db : Db) (c c' : Cache P) → IsExpired c c' → IsCoherent kept db c → IsCoherent kept db c'
  expires-IsCoherent db c c' e x = record {
    fresh = λ k v h. x.fresh k v (e.values_left k v h);
    indexed = λ k v h.
        subst (λ m. IsIndexedBy kept (record c { members = m }) k (index_of k)) (sym e.members_left)
          (x.indexed k v (e.values_left k v h));
  }

  Touches-kept : (u r : String) (db db' : Db) → Touches service u r db db' → Touches kept u r db db'
  Touches-kept u r db db' t = record {
    lists = λ v n b other. ap (map encode) (t.lists v n b other);
    conversation = λ v s other. ap (map_option encode) (t.conversation v s other);
    messages_of = λ v s n b other. ap (map encode) (t.messages_of v s n b other);
  }

  abbrev Coherent : State → Type 0
  Coherent s = IsCoherent kept s.0 s.1

  Step-Coherent : (s t : State) → Step s t → Coherent s → Coherent t
  unfolding ensure_journal create_in_journal
  Step-Coherent s t (lists u n b db c cursor) x =
      (list_journals-IsCurrent service encode db u n b c cursor x).coherent
  Step-Coherent s t (gets u r db c) x = (get_journal-IsCurrent service encode db u r c x).coherent
  Step-Coherent s t (lists_messages u r n b db c) x =
      (list_messages-IsCurrent service encode db u r n b c x).coherent
  Step-Coherent s t (ensures ensure u r db c touched) x =
      invalidate-IsCoherent kept u r db (ensure db).1 c x
        (Touches-kept u r db (ensure db).1 touched)
  Step-Coherent s t (creates insert reference_of u r db c known touched) x =
      subst (λ o. IsCoherent kept (insert db).1 (invalidate_some none u o c)) (sym known)
        (invalidate-IsCoherent kept u r db (insert db).1 c x
          (Touches-kept u r db (insert db).1 touched))
  Step-Coherent s t (expires db c c' e) x = expires-IsCoherent db c c' e x

  Reaches-Coherent : (start t : State) → Reaches start t → Coherent start → Coherent t
  Reaches-Coherent start t start_here x = x
  Reaches-Coherent start t (then_step s u h step) x =
      Step-Coherent s t step (Reaches-Coherent start s h x)

  abbrev pub empty_cache : Cache P
  empty_cache = record { values = λ k. none; members = λ i. [] }

  -- The answer is the one expected, or what its JSON text decodes to.
  abbrev IsAnswer : {A : Type 0} → (A → A) → A → A → Type 0
  IsAnswer code expected answer = (answer ≡ expected) ⊎ (answer ≡ code expected)

  -- What every read answers in a state.
  pub record AreCurrent (db : Db) (c : Cache P) : Type 0 where
    pub current_lists :
        (user_id : String) (limit : ℕ) (before : Option String)
        → IsCursor before
        → IsAnswer
            (map encode)
            (service.list_conversations db user_id limit before)
            (list_journals service encode user_id limit before db c).0
    pub current_entries :
        (user_id reference : String)
        → IsAnswer
            (map_option encode)
            (service.get_conversation db user_id reference)
            (get_journal service encode user_id reference db c).0
    pub current_messages :
        (user_id reference : String) (limit : ℕ) (before : Option ℕ)
        → IsAnswer
            (map encode)
            (service.list_messages db user_id reference limit before)
            (list_messages service encode user_id reference limit before db c).0

  -- If every write changes only the answers about its own journal, then after every history from an
  -- empty cache, of reads with cursors other than "_", of writes whose conversation is found and in
  -- whose invalidation no call of the cache raises, and of expirations, each such read answers what
  -- the conversation service answers, as it is or as its JSON text decodes.
  pub Reaches-AreCurrent :
      (first db : Db) (c : Cache P) → Reaches (first, empty_cache) (db, c) → AreCurrent db c
  Reaches-AreCurrent first db c h =
      let x =
        Reaches-Coherent (first, empty_cache) (db, c) h
          (record { fresh = λ k v e. cc; indexed = λ k v e. absurd (no_value v e) }) in
      record {
        current_lists =
            λ u n b cursor. (list_journals-IsCurrent service encode db u n b c cursor x).answer;
        current_entries = λ u r. (get_journal-IsCurrent service encode db u r c x).answer;
        current_messages =
            λ u r n b. (list_messages-IsCurrent service encode db u r n b c x).answer;
      }
    where
      no_value : (v : Cached P) → none ≡ some v → ⊥
      no_value v e = cc
