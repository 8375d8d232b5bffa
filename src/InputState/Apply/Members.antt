-- ===== src/InputState/Apply/Members.antt =====
-- The sorted vectors and the arrays of InputState (src/input_state.cpp) under one write.
use aoahid_player.Base.{
  ℕ, suc, ◌<◌, ◌≤◌, ◌≡◌, Bool, true, false, none, some, List, [], ◌∷◌, length, get_or, set,
  get_or-set_self, get_or-set_ne, ltb, ◌==◌, ==_iff, ltb_iff, if◌then◌else◌, refl, arith,
  Bool-cases, inl, inr,
}
use aoahid_player.InputState.Held.{Value, value_or, flag_value, on_number}
use aoahid_player.InputState.{contains, set_member}

-- Every element is above `lo`, and they rise.
abbrev pub Rising : ℕ → List ℕ → Type 0
Rising lo [] = Unit
Rising lo (x ∷ xs) = (lo ≤ x) × Rising (suc x) xs

pub Rising-down : (a b : ℕ) (ys : List ℕ) → a ≤ b → Rising b ys → Rising a ys
Rising-down a b [] h r = tt
Rising-down a b (y ∷ ys) h r = (omega arith, r.1)

pub set_member-Rising :
    (lo v : ℕ) (b : Bool) (xs : List ℕ) → lo ≤ v → Rising lo xs → Rising lo (set_member xs v b)
unfolding set_member
set_member-Rising lo v true [] h r = (h, tt)
set_member-Rising lo v false [] h r = tt
set_member-Rising lo v b (x ∷ xs) h r = elim (Bool-cases (ltb x v)) [
  | inl below ↦
      rw (below, set_member) (r.0, set_member-Rising (suc x) v b xs ((ltb_iff x v).0 below) r.1)
  | inr not_below ↦ elim (Bool-cases (x == v)) [
    | inl same ↦ rw (not_below, set_member) (rw (same, set_member) (present b))
    | inr other ↦ rw (not_below, set_member) (rw (other, set_member) (insert b (ground arith)))
  ]
]
  where
    present : (b : Bool) → Rising lo (if b then x ∷ xs else xs)
    present true = r
    present false = Rising-down lo (suc x) xs (omega (arith, r.0)) r.1

    insert : (b : Bool) → v < x → Rising lo (if b then v ∷ x ∷ xs else x ∷ xs)
    insert true lt = (h, (lt, r.1))
    insert false lt = r

pub contains-below : (lo n : ℕ) (xs : List ℕ) → n < lo → Rising lo xs → contains xs n ≡ false
unfolding contains
contains-below lo n [] h r = refl
contains-below lo n (x ∷ xs) h r = ground arith

pub contains-set_member :
    (lo v n : ℕ) (b : Bool) (xs : List ℕ)
    → Rising lo xs
    → contains (set_member xs v b) n ≡ (if v == n then b else contains xs n)
unfolding contains set_member
contains-set_member lo v n b [] r = ground arith
contains-set_member lo v n b (x ∷ xs) r =
    ground (arith, contains-set_member (suc x) v n b xs r.1, contains-below (suc x) n xs)

-- A write of an array element, read back; out of bounds it changes nothing.
pub get_or-set {ℓ} :
    {A : Type ℓ} (xs : List A) (i j : ℕ) (v d : A)
    → i < length xs
    → get_or (set xs i v) j d ≡ (if i == j then v else get_or xs j d)
get_or-set xs i j v d h = elim (Bool-cases (i == j)) [
  | inl e ↦ let same : i ≡ j = (==_iff i j).0 e in rw e (rw (← same) (get_or-set_self xs i v d h))
  | inr ne ↦ rw ne (get_or-set_ne xs i j v d (λ s. ground arith))
]

-- A set of held numbers after one of them changes.
pub member_value :
    (xs : List ℕ) (v n : ℕ) (b : Bool)
    → Rising 0 xs
    → flag_value (contains (set_member xs v b) n)
      ≡ value_or (on_number v n true (flag_value b)) (flag_value (contains xs n))
member_value xs v n b r = rw (contains-set_member 0 v n b xs r) (ground arith)

-- The value of a place of an array after a write where `b` holds.
pub value_if {ℓ} :
    {A : Type ℓ} (f : A → Value) (b : Bool) (new old : A)
    → f (if b then new else old) ≡ value_or (if b then some (f new) else none) (f old)
value_if f true new old = refl
value_if f false new old = refl

pub value_kept : (b : Bool) (v : Value) → v ≡ value_or (if b then none else none) v
value_kept true v = refl
value_kept false v = refl
