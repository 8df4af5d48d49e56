-- ===== src/Update/Keyed.antt =====
-- The loop of steps six and ten of core.py that skips what is not valid or was seen before, by a key
-- of two texts.
use exobrain.Prelude.{
  IsAmong, String, ◌≡◌, ◌⊎◌, inl, inr, Bool, true, false, not, List, [], ◌∷◌, ◌&&◌, ◌==◌, arith,
  eq_iff, eq_refl, map, All, All-map_to, any_of, if◌then◌else◌, if_ind, refl,
}

abbrev pub Key : Type 0
Key = String × String

-- `key == k`
abbrev pub same_key : Key → Key → Bool
same_key (a, b) (c, d) = a == c && b == d

-- `key in seen`
abbrev pub seen_key : List Key → Key → Bool
seen_key seen key = any_of (λ k. same_key k key) seen

same_key_sym : (k j : Key) → same_key k j ≡ same_key j k
same_key_sym (a, b) (c, d) = ground (arith, eq_iff a c, eq_iff c a, eq_iff b d, eq_iff d b)

same_key_refl : (k : Key) → same_key k k ≡ true
same_key_refl (a, b) = ground (arith, eq_refl a, eq_refl b)

usable_cases : (b : Bool) → not b ≡ true → b ≡ true → ⊥
usable_cases b n u = ground arith

module _ {A : Type 0} (key : A → Key) (is_usable : A → Bool) where
  -- The loop with the keys that were seen: what it appends.
  unfoldable pub keep_new : List Key → List A → List A
  keep_new seen [] = []
  keep_new seen (item ∷ input) =
      let skipped = keep_new seen input in
      let kept = item ∷ keep_new (key item ∷ seen) input in
      if not (is_usable item) then skipped else if seen_key seen (key item) then skipped else kept

  abbrev pub keys : List A → List Key
  keys = map key

  -- The key of `p` was seen, or is that of an item that was kept.
  abbrev pub IsCovered : List Key → List A → A → Type 0
  IsCovered seen kept p = (seen_key seen (key p) ≡ true) ⊎ (seen_key (keys kept) (key p) ≡ true)

  -- No two of the items have one key.
  abbrev pub AreApart : List A → Type 0
  AreApart [] = Unit
  AreApart (p ∷ kept) = (seen_key (keys kept) (key p) ≡ false) × AreApart kept

  pub record IsKept (seen : List Key) (input kept : List A) : Type 0 where
    pub among : All (IsAmong input) kept
    pub usable : All (λ p. is_usable p ≡ true) kept
    pub fresh : All (λ p. seen_key seen (key p) ≡ false) kept
    pub apart : AreApart kept
    pub covered : All (λ p. is_usable p ≡ true → IsCovered seen kept p) input

  -- A key that the items are fresh for is none of theirs.
  seen_key-keys_fresh :
      (k : Key) (seen : List Key) (kept : List A)
      → All (λ p. seen_key (k ∷ seen) (key p) ≡ false) kept
      → seen_key (keys kept) k ≡ false
  seen_key-keys_fresh k seen [] h = refl
  seen_key-keys_fresh k seen (p ∷ kept) h =
      ground (arith, same_key_sym k (key p), h.0, seen_key-keys_fresh k seen kept h.1)

  fresh-tail :
      (k : Key) (seen : List Key) (kept : List A)
      → All (λ p. seen_key (k ∷ seen) (key p) ≡ false) kept
      → All (λ p. seen_key seen (key p) ≡ false) kept
  fresh-tail k seen = All-map_to _ _ (λ p h. ground arith)

  IsCovered-cons :
      (item : A) (seen : List Key) (kept : List A) (p : A)
      → IsCovered (key item ∷ seen) kept p
      → IsCovered seen (item ∷ kept) p
  IsCovered-cons item seen kept p h = ground arith

  -- An item that is skipped leaves the invariant as it is.
  IsKept-skip :
      (seen : List Key) (item : A) (input kept : List A)
      → (is_usable item ≡ true → IsCovered seen kept item)
      → IsKept seen input kept
      → IsKept seen (item ∷ input) kept
  IsKept-skip seen item input kept h x = record {
    among = All-map_to _ _ (λ p m. inr m) kept x.among;
    usable = x.usable;
    fresh = x.fresh;
    apart = x.apart;
    covered = (h, x.covered);
  }

  -- A usable item with a new key extends it.
  IsKept-cons :
      (seen : List Key) (item : A) (input kept : List A)
      → is_usable item ≡ true
      → seen_key seen (key item) ≡ false
      → IsKept (key item ∷ seen) input kept
      → IsKept seen (item ∷ input) (item ∷ kept)
  IsKept-cons seen item input kept u n x = record {
    among = (inl refl, All-map_to _ _ (λ p m. inr m) kept x.among);
    usable = (u, x.usable);
    fresh = (n, fresh-tail (key item) seen kept x.fresh);
    apart = (seen_key-keys_fresh (key item) seen kept x.fresh, x.apart);
    covered = (
      (λ _. inr (own (same_key_refl (key item)))),
      All-map_to _ _ (λ p f v. IsCovered-cons item seen kept p (f v)) input x.covered,
    );
  }
    where
      own : same_key (key item) (key item) ≡ true → seen_key (keys (item ∷ kept)) (key item) ≡ true
      own h = ground arith

  pub keep_new-IsKept : (seen : List Key) (input : List A) → IsKept seen input (keep_new seen input)
  unfolding keep_new
  keep_new-IsKept seen [] = record { among = tt; usable = tt; fresh = tt; apart = tt; covered = tt }
  keep_new-IsKept seen (item ∷ input) =
      if_ind (IsKept seen (item ∷ input)) (not (is_usable item))
        (λ unusable.
          IsKept-skip seen item input _ (λ u. absurd (usable_cases _ unusable u))
            (keep_new-IsKept seen input))
        λ usable.
          if_ind (IsKept seen (item ∷ input)) (seen_key seen (key item))
            (λ known. IsKept-skip seen item input _ (λ u. inl known) (keep_new-IsKept seen input))
            λ unknown.
              IsKept-cons seen item input _ (ground arith) unknown
                (keep_new-IsKept (key item ∷ seen) input)
