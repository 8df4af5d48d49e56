-- ===== src/Assistant/Sequences/Gathering.antt =====
-- The invariant of the loop over the rows: what it gathered so far.
use exobrain.Prelude.{
  ℕ, String, ◌≡◌, refl, sym, ap, ◌∙◌, Bool, true, false, not, Option, none, some, List, [], ◌∷◌,
  ◌++◌, ◌==◌, eq_iff, arith, filter_by, All, All-append, All-map_to, if◌then◌else◌, if_ind, subst,
}
use exobrain.Assistant.Sequences.{
  Row, Loop, is_empty, is_committed, flush, first_reference, at_reference, after_committed,
  add_message, take_row, take_rows, message_sequences, split_by_token_limit,
}
use exobrain.Assistant.Sequences.Splitting.{
  joined, joined-append, append_nil, append_assoc, All-joined, IsBounded,
  split_by_token_limit-IsCut,
}

abbrev pub is_pending : Row → Bool
is_pending row = not (is_committed row)

-- All rows of a chunk are about one journal.
abbrev HasOneReference : List Row → Type 0
HasOneReference chunk = (reference : String) × All (λ r. r.message.reference ≡ reference) chunk

abbrev IsCurrent : Loop → Row → Type 0
IsCurrent l row = l.current_reference ≡ some row.message.reference

filter_by-append {ℓ} :
    {A : Type ℓ} (p : A → Bool) (xs ys : List A)
    → filter_by p (xs ++ ys) ≡ filter_by p xs ++ filter_by p ys
filter_by-append p [] ys = refl
filter_by-append p (x ∷ xs) ys = split (p x) (filter_by-append p xs ys)
  where
    split :
        (b : Bool)
        → filter_by p (xs ++ ys) ≡ filter_by p xs ++ filter_by p ys
        → (if b then x ∷ filter_by p (xs ++ ys) else filter_by p (xs ++ ys))
          ≡ (if b then x ∷ filter_by p xs else filter_by p xs) ++ filter_by p ys
    split true e = ap (λ r. x ∷ r) e
    split false e = e

-- Rows that have the current reference have one reference.
current-HasOneReference :
    (reference : Option String) (chunk : List Row)
    → All (λ r. reference ≡ some r.message.reference) chunk
    → is_empty chunk ≡ false
    → HasOneReference chunk
current-HasOneReference reference [] h n = cc
current-HasOneReference reference (row ∷ chunk) h n =
    (row.message.reference, All-map_to _ _ (λ r e. same r (sym h.0 ∙ e)) (row ∷ chunk) h)
  where
    same :
        (r : Row)
        → some row.message.reference ≡ some r.message.reference
        → r.message.reference ≡ row.message.reference
    same r e = cc

module _ (max_tokens : ℕ) where
  pub record IsPartition (rows : List Row) (chunks : List (List Row)) : Type 0 where
    pub complete : joined chunks ≡ filter_by is_pending rows
    pub bounded : All (IsBounded max_tokens) chunks
    pub about_one : All HasOneReference chunks

  -- The invariant of the loop, where `rows` are those that it took.
  record IsGathered (pending : List Row) (l : Loop) : Type 0 where
    complete : joined l.chunks ++ l.current_chunk ≡ pending
    bounded : All (IsBounded max_tokens) l.chunks
    about_one : All HasOneReference l.chunks
    current : All (IsCurrent l) l.current_chunk

  -- Rows of one reference are cut into chunks of it.
  All-split :
      (P : Row → Type 0) (rows : List Row)
      → All P rows
      → All (All P) (split_by_token_limit max_tokens rows)
  All-split P rows h =
      All-joined P _ (subst (All P) (sym (split_by_token_limit-IsCut max_tokens rows).complete) h)

  record IsFlushed (pending : List Row) (l : Loop) : Type 0 where
    gathered : IsGathered pending l
    none_open : l.current_chunk ≡ []

  empty-eq : (chunk : List Row) → is_empty chunk ≡ true → chunk ≡ []
  empty-eq [] e = refl
  empty-eq (r ∷ chunk) e = cc

  flush-IsFlushed :
      (pending : List Row) (l : Loop)
      → IsGathered pending l
      → IsFlushed pending (flush max_tokens l)
  flush-IsFlushed pending l x =
      if_ind (IsFlushed pending) (is_empty l.current_chunk)
        (λ e. record { gathered = x; none_open = empty-eq l.current_chunk e })
        λ n.
          let cut = split_by_token_limit-IsCut max_tokens l.current_chunk in
          let one = current-HasOneReference l.current_reference l.current_chunk x.current n in
          record {
            gathered = record {
              complete =
                  append_nil _
                  ∙ joined-append l.chunks (split_by_token_limit max_tokens l.current_chunk)
                  ∙ ap (λ r. joined l.chunks ++ r) cut.complete
                  ∙ x.complete;
              bounded = All-append _ l.chunks _ x.bounded cut.bounded;
              about_one =
                  All-append _ l.chunks _ x.about_one
                    (All-map_to _ _ (λ c h. (one.0, h)) _ (All-split _ l.current_chunk one.1));
              current = tt;
            };
            none_open = refl;
          }

  -- Between chunks the current reference may change.
  set_reference-IsGathered :
      (pending : List Row) (l : Loop) (reference : Option String)
      → IsFlushed pending l
      → IsGathered pending (record l { current_reference = reference })
  set_reference-IsGathered pending l reference x = record {
    complete = x.gathered.complete;
    bounded = x.gathered.bounded;
    about_one = x.gathered.about_one;
    current = subst (All _) (sym x.none_open) tt;
  }

  record IsAt (pending : List Row) (row : Row) (l : Loop) : Type 0 where
    gathered : IsGathered pending l
    here : IsCurrent l row

  at_reference-IsAt :
      (pending : List Row) (l : Loop) (row : Row)
      → IsGathered pending l
      → IsAt pending row (at_reference max_tokens l row)
  at_reference-IsAt pending l row x =
      if_ind (IsAt pending row)
        (row.message.reference == first_reference max_tokens l.current_reference row)
        (λ same. record {
          gathered = record {
            complete = x.complete;
            bounded = x.bounded;
            about_one = x.about_one;
            current =
                All-map_to _ _ (λ r e. keep l.current_reference r e) l.current_chunk x.current;
          };
          here = ap some (sym (text_eq same));
        })
        λ other. record {
          gathered =
              set_reference-IsGathered pending (flush max_tokens l) _ (flush-IsFlushed pending l x);
          here = refl;
        }
    where
      keep :
          (reference : Option String) (r : Row)
          → reference ≡ some r.message.reference
          → some (first_reference max_tokens reference row) ≡ some r.message.reference
      keep none r e = cc
      keep (some reference) r e = e

      text_eq : {s t : String} → (s == t) ≡ true → s ≡ t
      text_eq {s} {t} e = ground (arith, eq_iff s t)

  after_committed-IsAt :
      (pending : List Row) (l : Loop) (row : Row)
      → IsAt pending row l
      → IsAt pending row (after_committed max_tokens l row)
  after_committed-IsAt pending l row x =
      if_ind (IsAt pending row) _
        (λ t. record {
          gathered =
              set_reference-IsGathered pending (flush max_tokens l) _
                (flush-IsFlushed pending l x.gathered);
          here = flush-IsCurrent l x.here;
        })
        λ f. x
    where
      flush-IsCurrent : (l : Loop) → IsCurrent l row → IsCurrent (flush max_tokens l) row
      flush-IsCurrent l e =
          if_ind (λ k. IsCurrent k row) (is_empty l.current_chunk) (λ t. e) (λ f. e)

  add_message-IsGathered :
      (pending : List Row) (l : Loop) (row : Row)
      → IsAt pending row l
      → IsGathered (pending ++ (row ∷ [])) (add_message max_tokens l row)
  add_message-IsGathered pending l row x = record {
    complete =
        sym (append_assoc (joined l.chunks) l.current_chunk (row ∷ []))
        ∙ ap (λ r. r ++ (row ∷ [])) x.gathered.complete;
    bounded = x.gathered.bounded;
    about_one = x.gathered.about_one;
    current = All-append _ l.current_chunk (row ∷ []) x.gathered.current (x.here, tt);
  }

  moved : (l : Loop) {p q : List Row} → p ≡ q → IsGathered p l → IsGathered q l
  moved l e x = subst (λ r. IsGathered r l) e x

  take_row-IsGathered :
      (rows : List Row) (l : Loop) (row : Row)
      → IsGathered (filter_by is_pending rows) l
      → IsGathered (filter_by is_pending (rows ++ (row ∷ []))) (take_row max_tokens l row)
  take_row-IsGathered rows l row x = moved _ (sym (filter_by-append is_pending rows (row ∷ []))) (
      if_ind (IsGathered (filter_by is_pending rows ++ filter_by is_pending (row ∷ [])))
        (is_committed row)
        (λ c.
          moved _
            (sym (
              ap (λ p. filter_by is_pending rows ++ p) (pending_none (is_committed row) c)
              ∙ append_nil _))
            (set_reference-IsGathered _ _ _ (flush-IsFlushed _ l x)))
        λ c.
          moved _
            (ap (λ p. filter_by is_pending rows ++ p) (sym (pending_one (is_committed row) c)))
            (add_message-IsGathered _ _ row
              (after_committed-IsAt _ _ row (at_reference-IsAt _ l row x))))
    where
      pending_none : (b : Bool) → b ≡ true → (if not b then row ∷ [] else []) ≡ []
      pending_none b c = ground arith

      pending_one : (b : Bool) → b ≡ false → (if not b then row ∷ [] else []) ≡ row ∷ []
      pending_one b c = ground arith

  take_rows-IsGathered :
      (rows : List Row) (l : Loop) (later : List Row)
      → IsGathered (filter_by is_pending rows) l
      → IsGathered (filter_by is_pending (rows ++ later)) (take_rows max_tokens l later)
  take_rows-IsGathered rows l [] x =
      subst (λ r. IsGathered (filter_by is_pending r) l) (sym (append_nil rows)) x
  take_rows-IsGathered rows l (row ∷ later) x =
      subst
        (λ r.
          IsGathered (filter_by is_pending r)
            (take_rows max_tokens (take_row max_tokens l row) later))
        (append_assoc rows (row ∷ []) later)
        (take_rows-IsGathered (rows ++ (row ∷ [])) _ later (take_row-IsGathered rows l row x))

  IsFlushed-IsPartition :
      (rows : List Row) (l : Loop)
      → IsFlushed (filter_by is_pending rows) l
      → IsPartition rows l.chunks
  IsFlushed-IsPartition rows l x = record {
    complete =
        sym (append_nil _) ∙ ap (λ r. joined l.chunks ++ r) (sym x.none_open) ∙ x.gathered.complete;
    bounded = x.gathered.bounded;
    about_one = x.gathered.about_one;
  }

  pub message_sequences-IsPartition :
      (rows : List Row) → IsPartition rows (message_sequences max_tokens rows)
  unfolding message_sequences
  message_sequences-IsPartition rows = IsFlushed-IsPartition rows _ (
      flush-IsFlushed _ _ (
        take_rows-IsGathered [] _ rows
          (record { complete = refl; bounded = tt; about_one = tt; current = tt })))
