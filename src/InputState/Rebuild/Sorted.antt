-- ===== src/InputState/Rebuild/Sorted.antt =====
-- The order in which state_at of src/input_state.cpp applies the segments: by their last run, then
-- by their place in the file.
use aoahid_player.Base.{
  ℕ, ◌≡◌, ◌≢◌, ◌⊎◌, inl, inr, Bool, true, false, not, List, [], ◌∷◌, arith, ltb, ◌==◌,
  if◌then◌else◌, Bool-cases,
}
use aoahid_player.InputState.{insert_by, sort_by}

abbrev pub In : ℕ → List ℕ → Type 0
In x [] = ⊥
In x (y ∷ ys) = (x ≡ y) ⊎ In x ys

abbrev pub SortedBy : (ℕ → ℕ → Bool) → List ℕ → Type 0
SortedBy less [] = Unit
SortedBy less (x ∷ xs) = ((y : ℕ) → In y xs → less x y ≡ true) × SortedBy less xs

-- No number twice.
abbrev pub Distinct : List ℕ → Type 0
Distinct [] = Unit
Distinct (x ∷ xs) = (In x xs → ⊥) × Distinct xs

-- Lexicographic order by a key, then by the number itself.
abbrev pub by_key : (ℕ → ℕ) → ℕ → ℕ → Bool
by_key key a b = if not (key a == key b) then ltb (key a) (key b) else ltb a b

module _ (key : ℕ → ℕ) where
  by_key_trans : (a b c : ℕ) → by_key key a b ≡ true → by_key key b c ≡ true → by_key key a c ≡ true
  by_key_trans a b c p q = ground arith

  by_key_total : (a b : ℕ) → a ≢ b → by_key key a b ≡ false → by_key key b a ≡ true
  by_key_total a b n p = ground arith

  In-insert_by : (a y : ℕ) (xs : List ℕ) → In y (insert_by (by_key key) a xs) → (y ≡ a) ⊎ In y xs
  unfolding insert_by
  In-insert_by a y [] i = i
  In-insert_by a y (x ∷ xs) i = elim (Bool-cases (by_key key a x)) [
    | inl t ↦ rw (t, insert_by) at i
    | inr f ↦ past (rw (f, insert_by) at i) (In-insert_by a y xs)
  ]
    where
      past :
          (y ≡ x) ⊎ In y (insert_by (by_key key) a xs)
          → (In y (insert_by (by_key key) a xs) → (y ≡ a) ⊎ In y xs)
          → (y ≡ a) ⊎ ((y ≡ x) ⊎ In y xs)
      past (inl e) ih = inr (inl e)
      past (inr j) ih = elim (ih j) [ inl e ↦ inl e | inr k ↦ inr (inr k) ]

  insert_by-In : (a y : ℕ) (xs : List ℕ) → (y ≡ a) ⊎ In y xs → In y (insert_by (by_key key) a xs)
  unfolding insert_by
  insert_by-In a y [] i = i
  insert_by-In a y (x ∷ xs) i = elim (Bool-cases (by_key key a x)) [
    | inl t ↦ rw (t, insert_by) i
    | inr f ↦ rw (f, insert_by) (past i (insert_by-In a y xs))
  ]
    where
      past :
          (y ≡ a) ⊎ ((y ≡ x) ⊎ In y xs)
          → ((y ≡ a) ⊎ In y xs → In y (insert_by (by_key key) a xs))
          → (y ≡ x) ⊎ In y (insert_by (by_key key) a xs)
      past (inl e) ih = inr (ih (inl e))
      past (inr (inl e)) ih = inl e
      past (inr (inr j)) ih = inr (ih (inr j))

  insert_by-SortedBy :
      (a : ℕ) (xs : List ℕ)
      → (In a xs → ⊥)
      → SortedBy (by_key key) xs
      → SortedBy (by_key key) (insert_by (by_key key) a xs)
  unfolding insert_by
  insert_by-SortedBy a [] new s = (λ y i. absurd i, tt)
  insert_by-SortedBy a (x ∷ xs) new s = elim (Bool-cases (by_key key a x)) [
    | inl t ↦ rw (t, insert_by) (before t, s)
    | inr f ↦
        rw (f, insert_by)
          (
            behind (by_key_total a x (λ e. new (inl e)) f),
            insert_by-SortedBy a xs (λ i. new (inr i)) s.1,
          )
  ]
    where
      before : by_key key a x ≡ true → (y : ℕ) → (y ≡ x) ⊎ In y xs → by_key key a y ≡ true
      before t y (inl e) = rw e t
      before t y (inr i) = by_key_trans a x y t (s.0 y i)

      behind :
          by_key key x a ≡ true
          → (y : ℕ) → In y (insert_by (by_key key) a xs)
          → by_key key x y ≡ true
      behind t y i = elim (In-insert_by a y xs i) [ inl e ↦ rw e t | inr j ↦ s.0 y j ]

  pub In-sort_by : (y : ℕ) (xs : List ℕ) → In y (sort_by (by_key key) xs) → In y xs
  unfolding sort_by
  In-sort_by y [] i = i
  In-sort_by y (x ∷ xs) i = elim (In-insert_by x y (sort_by (by_key key) xs) i) [
    | inl e ↦ inl e
    | inr j ↦ inr (In-sort_by y xs j)
  ]

  pub sort_by-In : (y : ℕ) (xs : List ℕ) → In y xs → In y (sort_by (by_key key) xs)
  unfolding sort_by
  sort_by-In y [] i = i
  sort_by-In y (x ∷ xs) (inl e) = insert_by-In x y (sort_by (by_key key) xs) (inl e)
  sort_by-In y (x ∷ xs) (inr j) =
      insert_by-In x y (sort_by (by_key key) xs) (inr (sort_by-In y xs j))

  pub sort_by-SortedBy :
      (xs : List ℕ) → Distinct xs → SortedBy (by_key key) (sort_by (by_key key) xs)
  unfolding sort_by
  sort_by-SortedBy [] d = tt
  sort_by-SortedBy (x ∷ xs) d =
      insert_by-SortedBy x (sort_by (by_key key) xs) (λ i. d.0 (In-sort_by x xs i))
        (sort_by-SortedBy xs d.1)
