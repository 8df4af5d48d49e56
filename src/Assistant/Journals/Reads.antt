-- ===== src/Assistant/Journals/Reads.antt =====
-- Each read answers what the conversation service answers, and leaves the cache coherent.
use exobrain.Prelude.{
  ℕ, String, ◌≡◌, refl, sym, ◌∙◌, ap, Option, none, some, List, map, ◌⊎◌, inl, inr,
}
use exobrain.Assistant.Journals.{
  journal_entry, journal_messages, of_reference, of_lists, normalize_cursor, key_journals, set_json,
  index_key, Cached, rows, entry, not_found, Cache, Queries, list_journals, get_journal,
  list_messages, cached_journals, loaded_journal, cached_journal, cached_messages,
}
use exobrain.Assistant.Journals.Coherence.{
  cursor_of, answer_to, entry_value, IsCoherent, store, store-IsCoherent, index_key-IsCoherent,
}

-- Option.map
abbrev pub map_option : {P : Type 0} → (P → P) → Option P → Option P
map_option f none = none
map_option f (some x) = some (f x)

-- A cursor that is not the text for none.
abbrev pub IsCursor : Option String → Type 0
IsCursor before = cursor_of (normalize_cursor before) ≡ before

rows_inj : {P : Type 0} (p q : List P) → Path (Cached P) (rows p) (rows q) → p ≡ q
rows_inj p q e = cc

-- The service with answers that were encoded: what the cache holds.
abbrev pub encoded_service : {Db P : Type 0} → (P → P) → Queries Db P → Queries Db P
encoded_service encode service = record {
  list_conversations = λ db u n b. map encode (service.list_conversations db u n b);
  get_conversation = λ db u r. map_option encode (service.get_conversation db u r);
  list_messages = λ db u r n b. map encode (service.list_messages db u r n b);
}

module _ {Db P : Type 0} (service : Queries Db P) (encode : P → P) (db : Db) where
  abbrev kept : Queries Db P
  kept = encoded_service encode service

  -- A read gave the answer of the service, or that answer encoded.
  pub record IsCurrent {A : Type 0} (code : A → A) (expected : A) (result : A × Cache P)
      : Type 0 where
    pub answer : (result.0 ≡ expected) ⊎ (result.0 ≡ code expected)
    pub coherent : IsCoherent kept db result.1

  pub list_journals-IsCurrent :
      (u : String) (n : ℕ) (before : Option String) (c : Cache P)
      → IsCursor before
      → IsCoherent kept db c
      → IsCurrent
          (map encode)
          (service.list_conversations db u n before)
          (list_journals service encode u n before db c)
  unfolding list_journals store set_json
  list_journals-IsCurrent u n before c cursor x =
      of_cached (c.values (key_journals u n before)) (x.fresh (key_journals u n before))
    where
      expected :
          answer_to kept db (key_journals u n before)
          ≡ rows (map encode (service.list_conversations db u n before))
      expected = ap (λ b. rows (map encode (service.list_conversations db u n b))) cursor

      missed : IsCurrent (map encode) (service.list_conversations db u n before) (
        service.list_conversations db u n before,
        index_key (of_lists u) (key_journals u n before) (
            set_json encode
              (key_journals u n before)
              (rows (service.list_conversations db u n before))
              c),
      )
      missed = record {
        answer = inl refl;
        coherent = store-IsCoherent kept db (key_journals u n before) _ c (sym expected) x;
      }

      of_cached :
          (o : Option (Cached P))
          → ((v : Cached P) → o ≡ some v → v ≡ answer_to kept db (key_journals u n before))
          → IsCurrent
              (map encode)
              (service.list_conversations db u n before)
              (cached_journals service encode o u n before db c)
      of_cached (some (rows p)) f = record {
        answer = inr (rows_inj p _ (f (rows p) refl ∙ expected));
        coherent = x;
      }
      of_cached none f = missed
      of_cached (some (entry e)) f = missed
      of_cached (some not_found) f = missed

  pub list_messages-IsCurrent :
      (u r : String) (n : ℕ) (before : Option ℕ) (c : Cache P)
      → IsCoherent kept db c
      → IsCurrent
          (map encode)
          (service.list_messages db u r n before)
          (list_messages service encode u r n before db c)
  unfolding list_messages store set_json
  list_messages-IsCurrent u r n before c x =
      of_cached (c.values (journal_messages u r n before)) (x.fresh (journal_messages u r n before))
    where
      missed : IsCurrent (map encode) (service.list_messages db u r n before) (
        service.list_messages db u r n before,
        index_key (of_reference u r) (journal_messages u r n before) (
            set_json encode
              (journal_messages u r n before)
              (rows (service.list_messages db u r n before))
              c),
      )
      missed = record {
        answer = inl refl;
        coherent = store-IsCoherent kept db (journal_messages u r n before) _ c refl x;
      }

      of_cached :
          (o : Option (Cached P))
          → ((v : Cached P) → o ≡ some v → v ≡ answer_to kept db (journal_messages u r n before))
          → IsCurrent
              (map encode)
              (service.list_messages db u r n before)
              (cached_messages service encode o u r n before db c)
      of_cached (some (rows p)) f = record {
        answer = inr (rows_inj p _ (f (rows p) refl));
        coherent = x;
      }
      of_cached none f = missed
      of_cached (some (entry e)) f = missed
      of_cached (some not_found) f = missed

  entry_value-inj : (a b : Option P) → entry_value kept a ≡ entry_value kept b → a ≡ b
  entry_value-inj none none e = refl
  entry_value-inj none (some y) e = cc
  entry_value-inj (some x) none e = cc
  entry_value-inj (some x) (some y) e = cc

  pub get_journal-IsCurrent :
      (u r : String) (c : Cache P)
      → IsCoherent kept db c
      → IsCurrent
          (map_option encode)
          (service.get_conversation db u r)
          (get_journal service encode u r db c)
  unfolding get_journal store set_json
  get_journal-IsCurrent u r c x =
      of_cached (c.values (journal_entry u r)) (x.fresh (journal_entry u r))
    where
      expected : Option P
      expected = service.get_conversation db u r

      missed :
          (o : Option P)
          → expected ≡ o
          → IsCurrent (map_option encode) expected (loaded_journal service encode o u r c)
      missed none e = record {
        answer = inl (sym e);
        coherent =
            store-IsCoherent kept db (journal_entry u r) not_found c
              (ap (λ o. entry_value kept (map_option encode o)) (sym e)) x;
      }
      missed (some payload) e = record {
        answer = inl (sym e);
        coherent =
            index_key-IsCoherent kept db (of_reference u r) (journal_entry u r)
              (set_json encode (journal_entry u r) (entry payload) c)
              (store-IsCoherent kept db (journal_entry u r) (entry (encode payload)) c
                (ap (λ o. entry_value kept (map_option encode o)) (sym e)) x);
      }

      of_cached :
          (o : Option (Cached P))
          → ((v : Cached P) → o ≡ some v → v ≡ answer_to kept db (journal_entry u r))
          → IsCurrent (map_option encode) expected (cached_journal service encode o u r db c)
      of_cached (some not_found) f = record {
        answer = inr (entry_value-inj none (map_option encode expected) (f not_found refl));
        coherent = x;
      }
      of_cached (some (entry e)) f = record {
        answer = inr (entry_value-inj (some e) (map_option encode expected) (f (entry e) refl));
        coherent = x;
      }
      of_cached none f = missed expected refl
      of_cached (some (rows p)) f = missed expected refl
