-- ===== src/Getevent/Usages.antt =====
-- The usages that GeteventParser::key_usage of src/getevent_parser.cpp finds.
use aoahid_player.Base.{
  ℕ, ◌≤◌, ◌≡◌, ◌==◌, subst, Bool, none, some, List, [], ◌∷◌, All, Bool-cases, Option-cases, inl,
  inr, arith, ◌∙◌,
}
use aoahid_player.Getevent.KeyTable.{KeyMapping, key_table}
use aoahid_player.Getevent.{usage_by, key_usage, parse_hex32}
use aoahid_player.Text.{Bytes, same_bytes}

IsKey : ℕ → Type 0
IsKey u = (4 ≤ u) × (u ≤ 231)

usage_by-IsKey :
    (p : KeyMapping → Bool) (es : List KeyMapping) (u : ℕ)
    → All (λ e. IsKey e.hid_usage) es
    → usage_by p es ≡ some u
    → IsKey u
unfolding usage_by
usage_by-IsKey p [] u a h = cc
usage_by-IsKey p (e ∷ es) u a h = elim (Bool-cases (p e)) [
  | inl t ↦
      let q : some e.hid_usage ≡ some u = rw (t, usage_by) at h in
      let r : e.hid_usage ≡ u = cc in subst IsKey r a.0
  | inr f ↦ usage_by-IsKey p es u a.1 (rw (f, usage_by) at h)
]

key_table-IsKey : All (λ e. IsKey e.hid_usage) key_table
unfolding IsKey
key_table-IsKey = search arith depth 200

-- A key that getevent reports is recorded with a usage from 4 to 231, whether it came with a label or as
-- a code in hexadecimal.
pub key_usage-IsKey : (token : Bytes) (u : ℕ) → key_usage token ≡ some u → (4 ≤ u) × (u ≤ 231)
unfolding key_usage IsKey
key_usage-IsKey token u h =
    elim (Option-cases (usage_by (λ e. same_bytes e.name token) key_table)) [
      | inr (v, e) ↦
          usage_by-IsKey (λ e. same_bytes e.name token) key_table u key_table-IsKey
            (e ∙ (rw e at h))
      | inl e ↦ elim (Option-cases (parse_hex32 token)) [
        | inl n ↦ let q : none ≡ some u = rw (e, n) at h in absurd cc
        | inr (code, n) ↦
            usage_by-IsKey (λ e. e.linux_code == code) key_table u key_table-IsKey (rw (e, n) at h)
      ]
    ]
