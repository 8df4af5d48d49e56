-- ===== src/Assistant/Sequences/Splitting.antt =====
-- What _split_by_token_limit gives: the rows in their order, cut where the next does not fit.
use exobrain.Prelude.{
  ℕ, ◌+◌, ◌≤◌, ◌≡◌, ◌⊎◌, inl, inr, refl, sym, ap, ◌∙◌, true, false, not, List, [], ◌∷◌, ◌++◌, ◌&&◌,
  arith, ltb, length, All, All-append, if_ind, subst, Bool-cases,
}
use exobrain.Assistant.Sequences.{
  Row, Split, is_empty, tokens_of, make_room, add_row, split_rows, split_chunks,
  split_by_token_limit,
}

-- The chunks one after another.
abbrev pub joined {ℓ} : {A : Type ℓ} → List (List A) → List A
joined [] = []
joined (xs ∷ rest) = xs ++ joined rest

abbrev tokens : List Row → ℕ
tokens [] = 0
tokens (row ∷ rows) = tokens_of row + tokens rows

module _ {ℓ} {A : Type ℓ} where
  pub append_nil : (xs : List A) → xs ++ [] ≡ xs
  append_nil [] = refl
  append_nil (x ∷ xs) = ap (λ r. x ∷ r) (append_nil xs)

  pub append_assoc : (xs ys zs : List A) → (xs ++ ys) ++ zs ≡ xs ++ (ys ++ zs)
  append_assoc [] ys zs = refl
  append_assoc (x ∷ xs) ys zs = ap (λ r. x ∷ r) (append_assoc xs ys zs)

  pub joined-append : (xss yss : List (List A)) → joined (xss ++ yss) ≡ joined xss ++ joined yss
  joined-append [] yss = refl
  joined-append (xs ∷ xss) yss =
      rw (joined-append xss yss) (sym (append_assoc xs (joined xss) (joined yss)))

  pub All-joined {κ} : (P : A → Type κ) (xss : List (List A)) → All P (joined xss) → All (All P) xss
  All-joined P [] h = tt
  All-joined P (xs ∷ xss) h = (front xs (joined xss) h, All-joined P xss (back xs (joined xss) h))
    where
      front : (ys zs : List A) → All P (ys ++ zs) → All P ys
      front [] zs a = tt
      front (y ∷ ys) zs a = (a.0, front ys zs a.1)

      back : (ys zs : List A) → All P (ys ++ zs) → All P zs
      back [] zs a = a
      back (y ∷ ys) zs a = back ys zs a.1

tokens-append : (xs ys : List Row) → tokens (xs ++ ys) ≡ tokens xs + tokens ys
tokens-append [] ys = omega arith
tokens-append (x ∷ xs) ys = omega (arith, tokens-append xs ys)

module _ (max_tokens : ℕ) where
  -- A chunk has a message, and more than one only within the limit.
  pub record IsBounded (chunk : List Row) : Type 0 where
    pub proper : is_empty chunk ≡ false
    pub bounded : (tokens chunk ≤ max_tokens) ⊎ (length chunk ≡ 1)

  record IsSplit (rows : List Row) (s : Split) : Type 0 where
    complete : joined s.chunks ++ s.chunk ≡ rows
    counted : s.chunk_tokens ≡ tokens s.chunk
    closed : All IsBounded s.chunks
    opened : (is_empty s.chunk ≡ true) ⊎ IsBounded s.chunk

  -- The row fits into the chunk that is open.
  abbrev HasRoom : Split → Row → Type 0
  HasRoom s row = (is_empty s.chunk ≡ true) ⊎ (tokens s.chunk + tokens_of row ≤ max_tokens)

  close_chunk :
      (xss : List (List Row)) (xs : List Row) → joined (xss ++ (xs ∷ [])) ≡ joined xss ++ xs
  close_chunk xss xs = rw (joined-append xss (xs ∷ [])) (ap (λ r. joined xss ++ r) (append_nil xs))

  opened-IsBounded :
      (chunk : List Row)
      → (is_empty chunk ≡ true) ⊎ IsBounded chunk
      → is_empty chunk ≡ false
      → IsBounded chunk
  opened-IsBounded chunk (inl e) n = cc
  opened-IsBounded chunk (inr b) n = b

  make_room-IsSplit :
      (rows : List Row) (s : Split) (row : Row)
      → IsSplit rows s
      → IsSplit rows (make_room max_tokens s row) × HasRoom (make_room max_tokens s row) row
  make_room-IsSplit rows s row x =
      if_ind (λ t. IsSplit rows t × HasRoom t row)
        (not (is_empty s.chunk) && ltb max_tokens (s.chunk_tokens + tokens_of row))
        (λ full. (
          record {
            complete = append_nil _ ∙ close_chunk s.chunks s.chunk ∙ x.complete;
            counted = refl;
            closed =
                All-append IsBounded s.chunks (s.chunk ∷ []) x.closed
                  (opened-IsBounded s.chunk x.opened (is_full full), tt);
            opened = inl refl;
          },
          inl refl,
        ))
        λ room. (x, has_room (Bool-cases (is_empty s.chunk)) room)
    where
      is_full :
          (not (is_empty s.chunk) && ltb max_tokens (s.chunk_tokens + tokens_of row)) ≡ true
          → is_empty s.chunk ≡ false
      is_full full = ground arith

      has_room :
          (is_empty s.chunk ≡ true) ⊎ (is_empty s.chunk ≡ false)
          → (not (is_empty s.chunk) && ltb max_tokens (s.chunk_tokens + tokens_of row)) ≡ false
          → HasRoom s row
      has_room (inl e) room = inl e
      has_room (inr n) room = inr (ground (arith, x.counted))

  is_empty-add : (chunk : List Row) (row : Row) → is_empty (chunk ++ (row ∷ [])) ≡ false
  is_empty-add [] row = refl
  is_empty-add (r ∷ chunk) row = refl

  add_row-IsBounded : (s : Split) (row : Row) → HasRoom s row → IsBounded (s.chunk ++ (row ∷ []))
  add_row-IsBounded s row h = record {
    proper = is_empty-add s.chunk row;
    bounded = bounded s.chunk h;
  }
    where
      bounded :
          (chunk : List Row)
          → (is_empty chunk ≡ true) ⊎ (tokens chunk + tokens_of row ≤ max_tokens)
          → (tokens (chunk ++ (row ∷ [])) ≤ max_tokens) ⊎ (length (chunk ++ (row ∷ [])) ≡ 1)
      bounded [] h = inr refl
      bounded (r ∷ chunk) (inl e) = cc
      bounded (r ∷ chunk) (inr fits) = inl (omega (arith, tokens-append (r ∷ chunk) (row ∷ [])))

  add_row-IsSplit :
      (rows : List Row) (s : Split) (row : Row)
      → IsSplit rows s
      → HasRoom s row
      → IsSplit (rows ++ (row ∷ [])) (add_row max_tokens s row)
  add_row-IsSplit rows s row x h = record {
    complete =
        sym (append_assoc (joined s.chunks) s.chunk (row ∷ []))
        ∙ ap (λ r. r ++ (row ∷ [])) x.complete;
    counted = omega (arith, tokens-append s.chunk (row ∷ []), x.counted);
    closed = x.closed;
    opened = inr (add_row-IsBounded s row h);
  }

  split_rows-IsSplit :
      (rows : List Row) (s : Split) (later : List Row)
      → IsSplit rows s
      → IsSplit (rows ++ later) (split_rows max_tokens s later)
  split_rows-IsSplit rows s [] x = subst (λ r. IsSplit r s) (sym (append_nil rows)) x
  split_rows-IsSplit rows s (row ∷ later) x =
      let (y, room) = make_room-IsSplit rows s row x in
      subst
        (λ r.
          IsSplit r
            (split_rows max_tokens (add_row max_tokens (make_room max_tokens s row) row) later))
        (append_assoc rows (row ∷ []) later)
        (split_rows-IsSplit (rows ++ (row ∷ [])) _ later (add_row-IsSplit rows _ row y room))

  empty-eq : (chunk : List Row) → is_empty chunk ≡ true → chunk ≡ []
  empty-eq [] e = refl
  empty-eq (r ∷ chunk) e = cc

  -- The rows in their order, in chunks that are bounded.
  pub record IsCut (rows : List Row) (chunks : List (List Row)) : Type 0 where
    pub complete : joined chunks ≡ rows
    pub bounded : All IsBounded chunks

  split_chunks-IsCut :
      (rows : List Row) (s : Split) → IsSplit rows s → IsCut rows (split_chunks max_tokens s)
  split_chunks-IsCut rows s x =
      if_ind (IsCut rows) (is_empty s.chunk)
        (λ e. record {
          complete =
              sym (append_nil _)
              ∙ ap (λ r. joined s.chunks ++ r) (sym (empty-eq s.chunk e))
              ∙ x.complete;
          bounded = x.closed;
        })
        λ n. record {
          complete = close_chunk s.chunks s.chunk ∙ x.complete;
          bounded =
              All-append IsBounded s.chunks (s.chunk ∷ []) x.closed
                (opened-IsBounded s.chunk x.opened n, tt);
        }

  pub split_by_token_limit-IsCut :
      (rows : List Row) → IsCut rows (split_by_token_limit max_tokens rows)
  unfolding split_by_token_limit
  split_by_token_limit-IsCut rows = split_chunks-IsCut rows _ (
      split_rows-IsSplit [] _ rows
        (record { complete = refl; counted = refl; closed = tt; opened = inl refl }))
