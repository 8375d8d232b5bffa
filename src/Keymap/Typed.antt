-- ===== src/Keymap/Typed.antt =====
-- hid_usage_from_ascii of apps/aoahid_player_gui/keymap.cpp against the characters of a US keyboard.
use aoahid_player.Base.{
  ◌≡◌, refl, sym, ap, ◌∙◌, inl, inr, Bool-cases, ℕ, ◌+◌, ◌-◌, Bool, true, false, not, ◌&&◌, Option,
  none, some, List, [], ◌∷◌, All, ◌==◌, ==_iff, if◌then◌else◌, arith,
}
use aoahid_player.Keymap.{switch, between, ascii_table, hid_usage_from_ascii}

-- What the keys other than letters type, without Shift and with it.
abbrev us_keys : List (ℕ × (ℕ × ℕ))
us_keys =
    (30, (b'1', b'!'))
    ∷ (31, (b'2', b'@'))
    ∷ (32, (b'3', b'#'))
    ∷ (33, (b'4', b'$'))
    ∷ (34, (b'5', b'%'))
    ∷ (35, (b'6', b'^'))
    ∷ (36, (b'7', b'&'))
    ∷ (37, (b'8', b'*'))
    ∷ (38, (b'9', b'('))
    ∷ (39, (b'0', b')'))
    ∷ (40, (b'\n', b'\n'))
    ∷ (43, (b'\t', b'\t'))
    ∷ (44, (b' ', b' '))
    ∷ (45, (b'-', b'_'))
    ∷ (46, (b'=', b'+'))
    ∷ (47, (b'[', b'{'))
    ∷ (48, (b']', b'}'))
    ∷ (49, (b'\\', b'|'))
    ∷ (51, (b';', b':'))
    ∷ (52, (b'\'', b'"'))
    ∷ (53, (b'`', b'~'))
    ∷ (54, (b',', b'<'))
    ∷ (55, (b'.', b'>'))
    ∷ (56, (b'/', b'?'))
    ∷ []

abbrev chosen : Bool → Option (ℕ × ℕ) → ℕ
chosen shift none = 0
chosen true (some k) = k.1
chosen false (some k) = k.0

-- The character that a usage types on a US keyboard, or 0.
unfoldable pub typed : ℕ → Bool → ℕ
unfolding switch
typed usage shift =
    if between 4 29 usage
    then (if shift then b'A' + (usage - 4) else b'a' + (usage - 4))
    else if between 30 38 usage && not shift
    then b'1' + (usage - 30)
    else chosen shift (switch us_keys usage)

-- A case of the switch types its character.
abbrev Types : ℕ → Option (ℕ × Bool) → Type 0
Types c none = Unit
Types c (some k) = typed k.0 k.1 ≡ c

switch-Types :
    (table : List (ℕ × (ℕ × Bool))) (c : ℕ)
    → All (λ x. typed x.1.0 x.1.1 ≡ x.0) table
    → Types c (switch table c)
unfolding switch
switch-Types [] c h = _
switch-Types (x ∷ rest) c h = elim (Bool-cases (x.0 == c)) [
  | inl e ↦ rw e (h.0 ∙ (==_iff x.0 c).0 e)
  | inr e ↦ rw e (switch-Types rest c h.1)
]

ascii_table_types : All (λ x. typed x.1.0 x.1.1 ≡ x.0) ascii_table
unfolding typed
ascii_table_types = ground arith

-- The parts of hid_usage_from_ascii that count from a first character.
lower_typed : (c : ℕ) → between b'a' b'z' c ≡ true → typed (4 + (c - b'a')) false ≡ c
unfolding typed
lower_typed c h = ground arith

upper_typed : (c : ℕ) → between b'A' b'Z' c ≡ true → typed (4 + (c - b'A')) true ≡ c
unfolding typed
upper_typed c h = ground arith

digit_typed : (c : ℕ) → between b'1' b'9' c ≡ true → typed (30 + (c - b'1')) false ≡ c
unfolding typed
digit_typed c h = ground arith

first_case :
    {b : Bool} (c : ℕ) (k : ℕ × Bool) (rest : Option (ℕ × Bool))
    → (b ≡ true → typed k.0 k.1 ≡ c)
    → Types c rest
    → Types c (if b then some k else rest)
first_case {b} c k rest h r = pick b h
  where
    pick : (b : Bool) → (b ≡ true → typed k.0 k.1 ≡ c) → Types c (if b then some k else rest)
    pick true h = h refl
    pick false h = r

typed_case :
    (c : ℕ) (o : Option (ℕ × Bool)) (k : ℕ × Bool) → Types c o → o ≡ some k → typed k.0 k.1 ≡ c
typed_case c none k h e = absurd cc
typed_case c (some j) k h e =
    let same : j ≡ k = cc in ap (λ (x : ℕ × Bool). typed x.0 x.1) (sym same) ∙ h

-- The key and the Shift that hid_usage_from_ascii gives for a character type that character on a US keyboard, so
-- that no two characters share a key and a Shift.
pub hid_usage_from_ascii-typed :
    (c : ℕ) (k : ℕ × Bool) → hid_usage_from_ascii c ≡ some k → typed k.0 k.1 ≡ c
unfolding hid_usage_from_ascii
hid_usage_from_ascii-typed c k e =
    typed_case c _ k
      (first_case c _ _ (lower_typed c) (
        first_case c _ _ (upper_typed c)
          (first_case c _ _ (digit_typed c) (switch-Types ascii_table c ascii_table_types))))
      e
