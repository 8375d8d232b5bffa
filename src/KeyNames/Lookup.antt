-- ===== src/KeyNames/Lookup.antt =====
-- What the names of src/key_names.cpp stand for: every usage found is in range, a media usage is
-- one that the toggle profile declares, and the case of a name does not matter.
use aoahid_player.Base.{
  ℕ, ◌+◌, ◌-◌, ◌&&◌, ◌≤◌, ◌≡◌, refl, subst, ◌∙◌, Bool, true, false, Option, none, some, List, [],
  ◌∷◌, length, drop, get_or, All, leb, ◌==◌, if◌then◌else◌, Bool-cases, Option-cases, inl, inr,
  arith,
}
use aoahid_player.KeyNames.{
  Named, same, names, media_names, usage_of, function_key, number_of, letter_key, is_digit_name,
  digit_key, key_usage_from_name, media_usage_supported, media_usage_from_name, any_usage,
  media_usages,
}
use aoahid_player.Text.{Bytes, lower}

usage_of_All :
    (P : ℕ → Type 0) (es : List Named) (name : Bytes) (u : ℕ)
    → All (λ e. P e.usage) es
    → usage_of es name ≡ some u
    → P u
unfolding usage_of
usage_of_All P [] name u a h = cc
usage_of_All P (e ∷ es) name u a h = elim (Bool-cases (same name e.name)) [
  | inl t ↦
      let q : some e.usage ≡ some u = rw (t, usage_of) at h in
      let r : e.usage ≡ u = cc in subst P r a.0
  | inr f ↦ usage_of_All P es name u a.1 (rw (f, usage_of) at h)
]

IsKey : ℕ → Type 0
IsKey u = (4 ≤ u) × (u ≤ 231)

IsKey-if :
    (b : Bool) (x u : ℕ) (o : Option ℕ)
    → (b ≡ true → IsKey x)
    → ((b ≡ false) → o ≡ some u → IsKey u)
    → (if b then some x else o) ≡ some u
    → IsKey u
IsKey-if true x u o a c h = let r : x ≡ u = cc in subst IsKey r (a refl)
IsKey-if false x u o a c h = c refl h

letter_key-IsKey : (name : Bytes) (u : ℕ) → letter_key name ≡ some u → IsKey u
unfolding letter_key IsKey
letter_key-IsKey name u h =
    IsKey-if (leb b'a' (lower (get_or name 0 0)) && leb (lower (get_or name 0 0)) b'z')
      (4 + (lower (get_or name 0 0) - b'a')) u none (λ t. ground arith) (λ f e. cc) h

digit_key-IsKey : (name : Bytes) → is_digit_name name ≡ true → IsKey (digit_key name)
unfolding digit_key is_digit_name IsKey
digit_key-IsKey name t = ground arith

function_key-IsKey : (name : Bytes) (u : ℕ) → function_key name ≡ some u → IsKey u
unfolding function_key IsKey
function_key-IsKey name u h = elim (Option-cases (number_of 0 (drop 1 name))) [
  | inl n ↦ ground (arith, n, h)
  | inr (v, n) ↦ ground (arith, n, h)
]

names-IsKey : All (λ e. IsKey e.usage) names
unfolding IsKey
names-IsKey = search arith

-- A key name stands for a usage from 4 to 231.
pub key_usage_from_name-IsKey :
    (name : Bytes) (u : ℕ) → key_usage_from_name name ≡ some u → (4 ≤ u) × (u ≤ 231)
unfolding key_usage_from_name IsKey
key_usage_from_name-IsKey name u h = elim (Bool-cases (length name == 1)) [
  | inl one ↦ letter_key-IsKey name u (rw one at h)
  | inr more ↦
      IsKey-if (is_digit_name name) (digit_key name) u _ (digit_key-IsKey name)
        (λ f e. elim (Option-cases (function_key name)) [
          | inl n ↦ usage_of_All IsKey names name u names-IsKey (rw n at e)
          | inr (v, n) ↦ function_key-IsKey name u (n ∙ (rw n at e))
        ])
        (rw more at h)
]

-- The usage of a media key name is one that the toggle profile declares.
pub media_usage_from_name-supported :
    (name : Bytes) (u : ℕ) → media_usage_from_name name ≡ some u → media_usage_supported u ≡ true
unfolding media_usage_from_name media_usage_supported
media_usage_from_name-supported name u h =
    usage_of_All (λ v. any_usage media_usages v ≡ true) media_names name u
      (
        refl,
        (
          refl,
          (
            refl,
            (refl, (refl, (refl, (refl, (refl, (refl, (refl, (refl, (refl, (refl, tt)))))))))),
          ),
        ),
      )
      h
