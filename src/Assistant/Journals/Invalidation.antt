-- ===== src/Assistant/Journals/Invalidation.antt =====
-- What is left in the cache after an invalidation is not about the journal that was written.
use exobrain.Prelude.{
  String, ◌≡◌, inl, inr, refl, sym, ◌∙◌, ap, subst, Bool, true, false, none, some, ◌==◌, ◌&&◌,
  eq_iff, if◌then◌else◌, arith, Bool-cases,
}
use exobrain.Assistant.Journals.{
  Key, journals, journal_entry, journal_messages, of_reference, of_lists, same_key, same_index,
  has_key, Cached, rows, Cache, delete, delete_indexed, invalidate_for_reference, Queries,
}
use exobrain.Assistant.Journals.Coherence.{
  cursor_of, index_of, answer_to, entry_value, IsIndexedBy, IsCoherent, Touches,
}

module _ {P : Type 0} where
  -- A key whose value is left.
  record IsLeft (u r : String) (c : Cache P) (k : Key) (v : Cached P) : Type 0 where
    in_no_list : has_key (c.members (of_lists u)) k ≡ false
    not_of_reference : has_key (c.members (of_reference u r)) k ≡ false
    no_entry : same_key (journal_entry u r) k ≡ false
    before : c.values k ≡ some v

  values-IsLeft :
      (u r : String) (c : Cache P) (k : Key) (v : Cached P)
      → (invalidate_for_reference none u r c).values k ≡ some v
      → IsLeft u r c k v
  unfolding invalidate_for_reference delete delete_indexed same_index
  values-IsLeft u r c k v h =
      split (has_key (c.members (of_lists u)) k) (has_key (c.members (of_reference u r)) k)
        (same_key (journal_entry u r) k) refl refl refl h
    where
      split :
          (a b d : Bool)
          → has_key (c.members (of_lists u)) k ≡ a
          → has_key (c.members (of_reference u r)) k ≡ b
          → same_key (journal_entry u r) k ≡ d
          → (if a then none else if b then none else if d then none else c.values k) ≡ some v
          → IsLeft u r c k v
      split true b d ea eb ed e = cc
      split false true d ea eb ed e = cc
      split false false true ea eb ed e = cc
      split false false false ea eb ed e = record {
        in_no_list = ea;
        not_of_reference = eb;
        no_entry = ed;
        before = e;
      }

  members-other_lists :
      (u r v : String) (c : Cache P)
      → (u == v) ≡ false
      → (invalidate_for_reference none u r c).members (of_lists v) ≡ c.members (of_lists v)
  unfolding invalidate_for_reference delete delete_indexed same_index
  members-other_lists u r v c n = rw n refl

  members-other_reference :
      (u r v s : String) (c : Cache P)
      → (u == v && r == s) ≡ false
      → (invalidate_for_reference none u r c).members (of_reference v s)
        ≡ c.members (of_reference v s)
  unfolding invalidate_for_reference delete delete_indexed same_index
  members-other_reference u r v s c n = rw n refl

opposite : {b : Bool} → b ≡ true → b ≡ false → ⊥
opposite {b} t f = ground arith

text_eq : (s t : String) → (s == t) ≡ true → s ≡ t
text_eq s t h = ground (arith, eq_iff s t)

both_true : (a b : Bool) → (a && b) ≡ true → (a ≡ true) × (b ≡ true)
both_true a b h = (ground arith, ground arith)

module _ {Db P : Type 0} (service : Queries Db P) (u r : String) (db db' : Db) (c : Cache P)
    (x : IsCoherent service db c) (touched : Touches service u r db db') where
  IsKept : Key → Cached P → Type 0
  IsKept k v =
      (v ≡ answer_to service db' k)
      × IsIndexedBy service (invalidate_for_reference none u r c) k (index_of k)

  IsLeft-IsKept : (k : Key) (v : Cached P) → IsLeft u r c k v → IsKept k v
  unfolding IsKept same_key
  IsLeft-IsKept (journals w n d) v left =
      let here = x.indexed (journals w n d) v left.before in
      elim (Bool-cases (u == w)) [
        | inl t ↦ absurd (
            opposite
              (subst (λ a. has_key (c.members (of_lists a)) (journals w n d) ≡ true)
                (sym (text_eq u w t)) here)
              left.in_no_list)
        | inr f ↦ (
          x.fresh (journals w n d) v left.before
              ∙ ap rows (sym (touched.lists w n (cursor_of d) f)),
          ap (λ ks. has_key ks (journals w n d)) (members-other_lists u r w c f) ∙ here,
        )
      ]
  IsLeft-IsKept (journal_entry w s) v left = (
    x.fresh (journal_entry w s) v left.before
        ∙ ap (entry_value service) (sym (touched.conversation w s left.no_entry)),
    tt,
  )
  IsLeft-IsKept (journal_messages w s n b) v left =
      let here = x.indexed (journal_messages w s n b) v left.before in
      elim (Bool-cases (u == w && r == s)) [
        | inl t ↦
            let (tu, tr) = both_true (u == w) (r == s) t in
            absurd (
              opposite
                (subst
                  (λ a. has_key (c.members (of_reference a r)) (journal_messages w s n b) ≡ true)
                  (sym (text_eq u w tu))
                  (subst
                    (λ a. has_key (c.members (of_reference w a)) (journal_messages w s n b) ≡ true)
                    (sym (text_eq r s tr)) here))
                left.not_of_reference)
        | inr f ↦ (
          x.fresh (journal_messages w s n b) v left.before
              ∙ ap rows (sym (touched.messages_of w s n b f)),
          ap (λ ks. has_key ks (journal_messages w s n b)) (members-other_reference u r w s c f)
              ∙ here,
        )
      ]

  -- After a write to a journal and its invalidation the cache is coherent again.
  pub invalidate-IsCoherent : IsCoherent service db' (invalidate_for_reference none u r c)
  unfolding IsKept
  invalidate-IsCoherent = record {
    fresh = λ k v h. (IsLeft-IsKept k v (values-IsLeft u r c k v h)).0;
    indexed = λ k v h. (IsLeft-IsKept k v (values-IsLeft u r c k v h)).1;
  }
