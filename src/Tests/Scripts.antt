-- ===== src/Tests/Scripts.antt =====
-- Concrete files for the model of EventScript::load of src/event_script.cpp, and names for that of
-- src/key_names.cpp.
use aoahid_player.Base.Int.{pos}
use aoahid_player.Base.{ℕ, ◌*◌, ◌≤◌, ◌≡◌, refl, Bool, false, Option, none, some, length, ltb, leb}
use aoahid_player.Getevent.{key_usage, usage_by, parse_hex32}
use aoahid_player.KeyNames.Lookup.{key_usage_from_name-IsKey}
use aoahid_player.KeyNames.{key_usage_from_name, media_usage_from_name}
use aoahid_player.Script.Load.Fitting.{load-Fits}
use aoahid_player.Script.Load.{load}
use aoahid_player.Script.Numbers.{Doubles}
use aoahid_player.Text.{Bytes, codes, digits_from, from_chars}
use aoahid_player.Timeline.{Fits}

-- Doubles that are whole numbers.
abbrev whole_value : Option ℕ → ℕ → ℕ × (ℕ × Bool)
whole_value none n = (0, (0, false))
whole_value (some v) n = (v, (n, false))

abbrev whole : Doubles
whole = record {
  Double = ℕ;
  strtod = λ text. whole_value (digits_from 10 0 text) (length text);
  at_most = leb;
  of_ℕ = λ n. n;
  times = λ a b. a * b;
  llround = pos;
  trunc = pos;
  less = ltb;
}

abbrev taps_file : Option Bytes
taps_file =
    some
      (codes "t,3,1,40,50,5 # down\n@every 3 to 20\nw,2\nt,3,0,40,50\n@else\nk,A,1,7\n@end\nw,3\n")

load-Fits_example : Fits (load whole taps_file).script
load-Fits_example = load-Fits whole taps_file

f13 : key_usage_from_name (codes "F13") ≡ some 104
unfolding key_usage_from_name
f13 = refl

mute : media_usage_from_name (codes "Mute") ≡ some 226
unfolding media_usage_from_name
mute = refl

key_usage_from_name-IsKey_example : (4 ≤ 104) × (104 ≤ 231)
key_usage_from_name-IsKey_example = key_usage_from_name-IsKey (codes "F13") 104 f13

key_a : key_usage (codes "001e") ≡ some 4
unfolding key_usage usage_by parse_hex32 from_chars
key_a = refl
