-- ===== src/Assistant/Updates/Committed.antt =====
-- enqueue_update_job where no call raises: every selected message becomes part of a job and is
-- committed, and the next call finds none.
use exobrain.Prelude.{
  Bool, ℕ, String, ◌≡◌, ◌⊎◌, inr, refl, sym, ap, ◌∙◌, subst, true, false, Option, none, List, [],
  ◌∷◌, ◌++◌, map, length, All,
}
use exobrain.Assistant.Calls.{Answer, returned, failed, continue, return, ◌>>=◌}
use exobrain.Assistant.Sequences.{Row, is_empty, list_uncommitted_message_sequences}
use exobrain.Assistant.Sequences.Splitting.{IsBounded, append_nil}
use exobrain.Assistant.Sequences.Bounds.{list_uncommitted_message_sequences-IsPartition}
use exobrain.Assistant.Updates.{
  Store, StatusCode, EnqueueError, enqueue_update_job, no_pending_messages, enqueue_sequence,
  enqueue_sequences, enqueue_found, first_id,
}
use exobrain.Assistant.Updates.Accounts.{
  job_of, commit_all, is_returned, Accounted, accepted, settled,
}
use exobrain.Assistant.Updates.Accounting.{enqueue_found-AccountedCall}
use exobrain.Assistant.Updates.Remaining.{none_left}

module _ (publish : ℕ → (StatusCode × Bool) ⊎ String) (fetch_fault mark_fault : ℕ → Option String)
    (max_tokens : ℕ) (user_id : String) where
  -- No call raises.
  pub record IsUp : Type 0 where
    pub publishes : (n : ℕ) → (job_id : String) × (publish n ≡ inr job_id)
    pub fetches : (n : ℕ) → fetch_fault n ≡ none
    pub marks : (n : ℕ) → mark_fault n ≡ none

  -- Every chunk became a job, and the query finds nothing any more.
  pub record IsUpdated (journal_reference : Option String) (w w' : Store) : Type 0 where
    pub jobs :
        w'.enqueued
        ≡ w.enqueued
          ++ map
              (job_of user_id)
              (list_uncommitted_message_sequences max_tokens w.messages journal_reference)
    pub nothing_left :
        list_uncommitted_message_sequences max_tokens w'.messages journal_reference ≡ []

  Accounted-IsUpdated :
      (journal_reference : Option String) (w w' : Store)
      → Accounted user_id w
          (list_uncommitted_message_sequences max_tokens w.messages journal_reference)
          true
          w'
      → IsUpdated journal_reference w w'
  Accounted-IsUpdated journal_reference w w' x =
      let (none_left_over, all_marked) = x.complete refl in
      let whole : list_uncommitted_message_sequences max_tokens w.messages journal_reference
          ≡ x.taken =
        x.parts ∙ ap (λ r. x.taken ++ r) none_left_over ∙ append_nil x.taken in
      record {
        jobs = rw whole x.jobs;
        nothing_left =
            rw (x.stored ∙ ap (λ r. commit_all r w.messages) (sym all_marked ∙ sym whole))
              (none_left max_tokens journal_reference w.messages);
      }

  module _ (up : IsUp) where
    enqueue_sequence-eq :
        (rows : List Row) (w : Store)
        → is_empty rows ≡ false
        → (job_id : String) × (enqueue_sequence publish fetch_fault mark_fault max_tokens user_id
              rows w
            ≡ (returned job_id, settled user_id rows w))
    unfolding enqueue_sequence
    enqueue_sequence-eq [] w n = cc
    enqueue_sequence-eq (row ∷ rows) w n =
        let (job_id, e) = up.publishes (length w.enqueued) in
        (job_id, rw e (rw (up.marks (length (accepted user_id (row ∷ rows) w).enqueued)) refl))

    abbrev Returns : {A : Type 0} → Answer EnqueueError A × Store → Type 0
    Returns o = is_returned o.0 ≡ true

    Returns-after_ids :
        (job_id : String) (o : Answer EnqueueError (List String) × Store)
        → Returns o
        → Returns (continue (λ job_ids. return (job_id ∷ job_ids)) o)
    Returns-after_ids job_id (returned ids, w) h = refl
    Returns-after_ids job_id (failed e, w) h = h

    Returns-first_id :
        (job_id : String) (o : Answer EnqueueError (List String) × Store)
        → Returns o
        → Returns (continue first_id (continue (λ job_ids. return (job_id ∷ job_ids)) o))
    Returns-first_id job_id (returned ids, w) h = refl
    Returns-first_id job_id (failed e, w) h = h

    enqueue_sequences-Returns :
        (sequences : List (List Row)) (w : Store)
        → All (IsBounded max_tokens) sequences
        → Returns (enqueue_sequences publish fetch_fault mark_fault max_tokens user_id sequences w)
    unfolding enqueue_sequences ◌>>=◌
    enqueue_sequences-Returns [] w b = refl
    enqueue_sequences-Returns (rows ∷ rest) w b =
        let (job_id, e) = enqueue_sequence-eq rows w b.0.proper in
        rw e
          (Returns-after_ids job_id _ (enqueue_sequences-Returns rest (settled user_id rows w) b.1))

    enqueue_found-Returns :
        (rows : List Row) (rest : List (List Row)) (w : Store)
        → All (IsBounded max_tokens) (rows ∷ rest)
        → Returns (enqueue_found publish fetch_fault mark_fault max_tokens user_id (rows ∷ rest) w)
    unfolding enqueue_found
    enqueue_found-Returns rows rest w b =
        let (job_id, e) = enqueue_sequence-eq rows w b.0.proper in
        rw e
          (Returns-first_id job_id _ (enqueue_sequences-Returns rest (settled user_id rows w) b.1))

  abbrev pub EndsWell : Option String → Store → Answer EnqueueError String × Store → Type 0
  EndsWell journal_reference w (returned job_id, w') = IsUpdated journal_reference w w'
  EndsWell journal_reference w (failed e, w') =
      (e ≡ no_pending_messages)
      × (w' ≡ w)
      × (list_uncommitted_message_sequences max_tokens w.messages journal_reference ≡ [])

  of_returned :
      (journal_reference : Option String) (w : Store) (o : Answer EnqueueError String × Store)
      → is_returned o.0 ≡ true
      → Accounted user_id w
          (list_uncommitted_message_sequences max_tokens w.messages journal_reference)
          (is_returned o.0)
          o.1
      → EndsWell journal_reference w o
  of_returned journal_reference w (returned job_id, w') h x =
      Accounted-IsUpdated journal_reference w w' x
  of_returned journal_reference w (failed e, w') h x = cc

  enqueue_found-none :
      (w : Store)
      → enqueue_found publish fetch_fault mark_fault max_tokens user_id [] w
        ≡ (failed no_pending_messages, w)
  unfolding enqueue_found
  enqueue_found-none w = refl

  enqueue_found-EndsWell :
      (up : IsUp) (journal_reference : Option String) (w : Store) (sequences : List (List Row))
      → list_uncommitted_message_sequences max_tokens w.messages journal_reference ≡ sequences
      → All (IsBounded max_tokens) sequences
      → EndsWell journal_reference w
          (enqueue_found publish fetch_fault mark_fault max_tokens user_id sequences w)
  enqueue_found-EndsWell up journal_reference w [] e b = rw (enqueue_found-none w) (refl, refl, e)
  enqueue_found-EndsWell up journal_reference w (rows ∷ rest) e b =
      let o = enqueue_found publish fetch_fault mark_fault max_tokens user_id (rows ∷ rest) w in
      of_returned journal_reference w o (enqueue_found-Returns up rows rest w b) (
        subst (λ s. Accounted user_id w s (is_returned o.0) o.1) (sym e)
          (enqueue_found-AccountedCall publish fetch_fault mark_fault max_tokens user_id
            (rows ∷ rest) w b))

  -- Where no call raises, the call returns after every chunk of the selected messages that are not
  -- committed became a job and the query for them finds nothing any more; unless it found nothing at
  -- first, when it raises KnowledgeNoPendingMessagesError and changes nothing.
  pub enqueue_update_job-EndsWell :
      (up : IsUp) (journal_reference : Option String) (w : Store)
      → EndsWell journal_reference w
          (enqueue_update_job publish fetch_fault mark_fault max_tokens user_id journal_reference w)
  unfolding enqueue_update_job
  enqueue_update_job-EndsWell up journal_reference w = rw (up.fetches (length w.enqueued)) (
      enqueue_found-EndsWell up journal_reference w _ refl
        (list_uncommitted_message_sequences-IsPartition max_tokens w.messages
          journal_reference).bounded)
