-- ===== src/Base/Branches.antt =====
-- The conditional and the match on an option as functions, so that a proof about a result of theirs
-- takes one lemma.
use aoahid_player.Base.Tests.{if◌then◌else◌}
use mathlib.Core.Bool.{Bool, true, false}
use mathlib.Core.Logic.{◌⊎◌, inl, inr}
use mathlib.Core.Option.{Option, none, some}
use mathlib.Core.Path.{◌≡◌, refl}

infix 1 when◌then◌else◌
unfoldable pub when◌then◌else◌ {ℓ} : {A : Type ℓ} → Bool → A → A → A
when true then x else y = x
when false then x else y = y

unfoldable pub match_option {ℓ κ} : {A : Type ℓ} {B : Type κ} → Option A → B → (A → B) → B
match_option none x f = x
match_option (some a) x f = f a

-- A property of both branches, each under its test, is one of the whole.
pub when_lem {ℓ κ} :
    {A : Type ℓ} (P : A → Type κ) (b : Bool) (x y : A)
    → (b ≡ true → P x)
    → (b ≡ false → P y)
    → P (when b then x else y)
unfolding when◌then◌else◌
when_lem P true x y h g = h refl
when_lem P false x y h g = g refl

pub match_option_lem {ℓ κ ι} :
    {A : Type ℓ} {B : Type κ} (P : B → Type ι) (o : Option A) (x : B) (f : A → B)
    → (o ≡ none → P x)
    → ((a : A) → o ≡ some a → P (f a))
    → P (match_option o x f)
unfolding match_option
match_option_lem P none x f h g = h refl
match_option_lem P (some a) x f h g = g a refl

-- A function of a conditional.
pub ap-when {ℓ κ} :
    {A : Type ℓ} {B : Type κ} (f : A → B) (b : Bool) (x y : A)
    → f (when b then x else y) ≡ (when b then f x else f y)
unfolding when◌then◌else◌
ap-when f true x y = refl
ap-when f false x y = refl

unfoldable pub match_sum {ℓ κ ι} :
    {A : Type ℓ} {B : Type κ} {C : Type ι} → A ⊎ B → (A → C) → (B → C) → C
match_sum (inl a) f g = f a
match_sum (inr b) f g = g b

pub match_sum_lem {ℓ κ ι ν} :
    {A : Type ℓ} {B : Type κ} {C : Type ι} (P : C → Type ν) (s : A ⊎ B) (f : A → C) (g : B → C)
    → ((a : A) → P (f a))
    → ((b : B) → P (g b))
    → P (match_sum s f g)
unfolding match_sum
match_sum_lem P (inl a) f g h k = h a
match_sum_lem P (inr b) f g h k = k b

pub no_clash : ¬ (true ≡ false)
no_clash e = absurd cc
