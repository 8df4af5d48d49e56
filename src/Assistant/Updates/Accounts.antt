-- ===== src/Assistant/Updates/Accounts.antt =====
-- The account of an enqueueing: which chunks became jobs, and which of them are committed.
use exobrain.Prelude.{
  String, ◌≡◌, ◌⊎◌, inl, inr, refl, sym, ap, ◌∙◌, Bool, true, false, List, [], ◌∷◌, ◌++◌, map,
}
use exobrain.Assistant.Calls.{Answer, returned, failed}
use exobrain.Assistant.Sequences.{Message, Row}
use exobrain.Assistant.Sequences.Splitting.{append_nil, append_assoc}
use exobrain.Assistant.Updates.{UpdateJob, Store, EnqueueError, update_job, row_ids, commit}

abbrev journal_of : List Row → String
journal_of [] = ""
journal_of (row ∷ rows) = row.message.reference

-- The job of a chunk.
abbrev pub job_of : String → List Row → UpdateJob
job_of user_id rows = update_job user_id (journal_of rows) rows

abbrev pub commit_all : List (List Row) → List Message → List Message
commit_all [] messages = messages
commit_all (rows ∷ rest) messages = commit_all rest (map (commit (row_ids rows)) messages)

abbrev pub is_returned : {A : Type 0} → Answer EnqueueError A → Bool
is_returned (returned a) = true
is_returned (failed e) = false

-- The chunks in `taken` became jobs, those in `marked` are committed too: these are the same, or the
-- last job is not committed yet. A call that returned has done all of them.
pub record Accounted (user_id : String) (w : Store) (sequences : List (List Row)) (done : Bool)
    (w' : Store) : Type 0 where
  pub taken : List (List Row)
  pub left : List (List Row)
  pub marked : List (List Row)
  pub parts : sequences ≡ taken ++ left
  pub jobs : w'.enqueued ≡ w.enqueued ++ map (job_of user_id) taken
  pub stored : w'.messages ≡ commit_all marked w.messages
  pub marked_taken : (taken ≡ marked) ⊎ ((last : List Row) × (taken ≡ marked ++ (last ∷ [])))
  pub complete : done ≡ true → (left ≡ []) × (taken ≡ marked)

abbrev pub accepted : String → List Row → Store → Store
accepted user_id rows w = record w { enqueued = w.enqueued ++ (job_of user_id rows ∷ []) }

abbrev pub settled : String → List Row → Store → Store
settled user_id rows w = record (accepted user_id rows w) {
  messages = map (commit (row_ids rows)) w.messages;
}

-- How the body of the loop ends.
pub data Outcome (user_id : String) (rows : List Row) (w : Store)
    : Answer EnqueueError String × Store → Type 0 where
  refused : (e : EnqueueError) → Outcome user_id rows w (failed e, w)
  unmarked : (e : EnqueueError) → Outcome user_id rows w (failed e, accepted user_id rows w)
  done : (job_id : String) → Outcome user_id rows w (returned job_id, settled user_id rows w)

module _ (user_id : String) where
  pub Accounted-none :
      (w : Store) (sequences : List (List Row)) → Accounted user_id w sequences false w
  Accounted-none w sequences = record {
    taken = [];
    left = sequences;
    marked = [];
    parts = refl;
    jobs = sym (append_nil _);
    stored = refl;
    marked_taken = inl refl;
    complete = λ f. cc;
  }

  pub Accounted-unmarked :
      (w : Store) (rows : List Row) (rest : List (List Row))
      → Accounted user_id w (rows ∷ rest) false (accepted user_id rows w)
  Accounted-unmarked w rows rest = record {
    taken = rows ∷ [];
    left = rest;
    marked = [];
    parts = refl;
    jobs = refl;
    stored = refl;
    marked_taken = inr (rows, refl);
    complete = λ f. cc;
  }

  pub Accounted-cons :
      (w : Store) (rows : List Row) (rest : List (List Row)) (d : Bool) (w' : Store)
      → Accounted user_id (settled user_id rows w) rest d w'
      → Accounted user_id w (rows ∷ rest) d w'
  Accounted-cons w rows rest d w' x = record {
    taken = rows ∷ x.taken;
    left = x.left;
    marked = rows ∷ x.marked;
    parts = ap (λ r. rows ∷ r) x.parts;
    jobs =
        x.jobs ∙ append_assoc w.enqueued (job_of user_id rows ∷ []) (map (job_of user_id) x.taken);
    stored = x.stored;
    marked_taken = longer x.marked_taken;
    complete = λ t. ((x.complete t).0, ap (λ r. rows ∷ r) (x.complete t).1);
  }
    where
      longer :
          (x.taken ≡ x.marked) ⊎ ((last : List Row) × (x.taken ≡ x.marked ++ (last ∷ [])))
          → (rows ∷ x.taken ≡ rows ∷ x.marked)
            ⊎ ((last : List Row) × (rows ∷ x.taken ≡ rows ∷ x.marked ++ (last ∷ [])))
      longer (inl e) = inl (ap (λ r. rows ∷ r) e)
      longer (inr (last, e)) = inr (last, ap (λ r. rows ∷ r) e)

  -- A call that failed after the loop has done no more than the loop.
  pub Accounted-failed :
      (w : Store) (sequences : List (List Row)) (d : Bool) (w' : Store)
      → Accounted user_id w sequences d w'
      → Accounted user_id w sequences false w'
  Accounted-failed w sequences d w' x = record {
    taken = x.taken;
    left = x.left;
    marked = x.marked;
    parts = x.parts;
    jobs = x.jobs;
    stored = x.stored;
    marked_taken = x.marked_taken;
    complete = λ f. cc;
  }
