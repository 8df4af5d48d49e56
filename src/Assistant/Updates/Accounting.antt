-- ===== src/Assistant/Updates/Accounting.antt =====
-- What enqueue_update_job leaves behind, however it ends.
use exobrain.Prelude.{
  Bool, ℕ, suc, String, ◌≡◌, ◌⊎◌, inl, inr, refl, sym, ap, true, false, Option, List, [], ◌∷◌,
  length, All, Option-cases,
}
use exobrain.Assistant.Calls.{Answer, Call, returned, failed, continue, return, ◌>>=◌}
use exobrain.Assistant.Sequences.{Row, is_empty}
use exobrain.Assistant.Sequences.Splitting.{IsBounded, append_nil}
use exobrain.Assistant.Updates.{
  Store, StatusCode, EnqueueError, publish_error, database_error, enqueue_sequence,
  enqueue_sequences, enqueue_found, first_id,
}
use exobrain.Assistant.Updates.Accounts.{
  is_returned, Accounted, accepted, settled, Outcome, refused, unmarked, done, Accounted-none,
  Accounted-unmarked, Accounted-cons, Accounted-failed,
}

module _ (publish : ℕ → (StatusCode × Bool) ⊎ String) (fetch_fault mark_fault : ℕ → Option String)
    (max_tokens : ℕ) (user_id : String) where
  enqueue_sequence-Outcome :
      (rows : List Row) (w : Store)
      → is_empty rows ≡ false
      → Outcome user_id rows w
          (enqueue_sequence publish fetch_fault mark_fault max_tokens user_id rows w)
  unfolding enqueue_sequence
  enqueue_sequence-Outcome [] w n = cc
  enqueue_sequence-Outcome (row ∷ rows) w n = of_answer (publish (length w.enqueued)) refl
    where
      of_answer :
          (p : (StatusCode × Bool) ⊎ String)
          → publish (length w.enqueued) ≡ p
          → Outcome user_id
              (row ∷ rows)
              w
              (enqueue_sequence publish fetch_fault mark_fault max_tokens user_id (row ∷ rows) w)
      of_answer (inl (code, false)) e = rw e (refused (publish_error code))
      of_answer (inl (code, true)) e = rw e (unmarked (publish_error code))
      of_answer (inr job_id) e =
          rw e
            (elim (Option-cases (mark_fault (length (accepted user_id (row ∷ rows) w).enqueued))) [
              | inl none_raised ↦ rw none_raised (done job_id)
              | inr (exc, raised) ↦ rw raised (unmarked (database_error exc))
            ])

  abbrev after_ids : String → List String → Call Store EnqueueError (List String)
  after_ids job_id job_ids = return (job_id ∷ job_ids)

  -- Every chunk got an id.
  abbrev HasIds : List (List Row) → Answer EnqueueError (List String) → Type 0
  HasIds sequences (returned job_ids) = length job_ids ≡ length sequences
  HasIds sequences (failed e) = Unit

  abbrev AccountedIds : Store → List (List Row) → Answer EnqueueError (List String) × Store → Type 0
  AccountedIds w sequences (a, w') =
      Accounted user_id w sequences (is_returned a) w' × HasIds sequences a

  after_rest :
      (w : Store) (rows : List Row) (rest : List (List Row)) (job_id : String)
      (o : Answer EnqueueError (List String) × Store)
      → AccountedIds (settled user_id rows w) rest o
      → AccountedIds w (rows ∷ rest) (continue (after_ids job_id) o)
  after_rest w rows rest job_id (returned job_ids, w') x =
      (Accounted-cons user_id w rows rest true w' x.0, ap suc x.1)
  after_rest w rows rest job_id (failed e, w') x =
      (Accounted-cons user_id w rows rest false w' x.0, tt)

  after_sequence :
      (w : Store) (rows : List Row) (rest : List (List Row))
      (o : Answer EnqueueError String × Store)
      → Outcome user_id rows w o
      → AccountedIds (settled user_id rows w) rest (
          enqueue_sequences publish fetch_fault mark_fault max_tokens user_id rest
            (settled user_id rows w))
      → AccountedIds w (rows ∷ rest) (
          continue
            (λ job_id w'.
              continue
                (after_ids job_id)
                (enqueue_sequences publish fetch_fault mark_fault max_tokens user_id rest w'))
            o)
  after_sequence w rows rest _ (refused e) x = (Accounted-none user_id w (rows ∷ rest), tt)
  after_sequence w rows rest _ (unmarked e) x = (Accounted-unmarked user_id w rows rest, tt)
  after_sequence w rows rest _ (done job_id) x = after_rest w rows rest job_id _ x

  enqueue_sequences-AccountedIds :
      (sequences : List (List Row)) (w : Store)
      → All (IsBounded max_tokens) sequences
      → AccountedIds w sequences
          (enqueue_sequences publish fetch_fault mark_fault max_tokens user_id sequences w)
  unfolding enqueue_sequences ◌>>=◌
  enqueue_sequences-AccountedIds [] w b = (
    record {
      taken = [];
      left = [];
      marked = [];
      parts = refl;
      jobs = sym (append_nil _);
      stored = refl;
      marked_taken = inl refl;
      complete = λ t. (refl, refl);
    },
    refl,
  )
  enqueue_sequences-AccountedIds (rows ∷ rest) w b =
      after_sequence w rows rest _ (enqueue_sequence-Outcome rows w b.0.proper)
        (enqueue_sequences-AccountedIds rest (settled user_id rows w) b.1)

  abbrev AccountedCall : Store → List (List Row) → Answer EnqueueError String × Store → Type 0
  AccountedCall w sequences (a, w') = Accounted user_id w sequences (is_returned a) w'

  after_ids-AccountedCall :
      (w : Store) (sequences : List (List Row)) (o : Answer EnqueueError (List String) × Store)
      → AccountedIds w sequences o
      → AccountedCall w sequences (continue first_id o)
  after_ids-AccountedCall w sequences (returned [], w') x =
      Accounted-failed user_id w sequences true w' x.0
  after_ids-AccountedCall w sequences (returned (id ∷ ids), w') x = x.0
  after_ids-AccountedCall w sequences (failed e, w') x = x.0

  pub enqueue_found-AccountedCall :
      (sequences : List (List Row)) (w : Store)
      → All (IsBounded max_tokens) sequences
      → AccountedCall w sequences
          (enqueue_found publish fetch_fault mark_fault max_tokens user_id sequences w)
  unfolding enqueue_found
  enqueue_found-AccountedCall [] w b = Accounted-none user_id w []
  enqueue_found-AccountedCall (rows ∷ rest) w b =
      after_ids-AccountedCall w (rows ∷ rest) _ (enqueue_sequences-AccountedIds (rows ∷ rest) w b)
