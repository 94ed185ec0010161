-- ===== src/Base/Strings.antt =====
-- Strings of the source as lists of UTF-16 code units, with the methods of `String` that the
-- dashboard calls.
use Prim.Native.Char.{code}
use Prim.Native.String.{String}
use Prim.Native.Nat.{ℕ, ◌-◌}
use mathlib.Core.Path.{◌≡◌, refl}
use mathlib.Core.Bool.{Bool, true, false, ◌&&◌, ◌||◌}
use mathlib.Core.List.{List, [], ◌∷◌, ◌++◌, reverse}
use native.Mathlib.Omega.{arith}
use meshtastic_proxy.Base.Tests.{◌==◌, leb, if◌then◌else◌}
use meshtastic_proxy.Base.Lists.{length, drop, replicate}
use meshtastic_proxy.Base.Int.{ℤ}

abbrev pub Text : Type 0
Text = List ℕ

-- A literal of the source.
abbrev pub text : String → Text
text String.[] = []
text (String.◌∷◌ c s) = code c ∷ text s

-- `===` on strings.
abbrev pub eq_text : Text → Text → Bool
eq_text (c ∷ rest) (d ∷ other) = c == d && eq_text rest other
eq_text [] [] = true
eq_text (c ∷ rest) [] = false
eq_text [] (d ∷ other) = false

pub eq_text_sound : (s t : Text) → eq_text s t ≡ true → s ≡ t
eq_text_sound (c ∷ rest) (d ∷ other) same = ground (arith, eq_text_sound rest other)
eq_text_sound [] [] same = refl
eq_text_sound (c ∷ rest) [] same = ground arith
eq_text_sound [] (d ∷ other) same = ground arith

eq_text_refl : (s : Text) → eq_text s s ≡ true
eq_text_refl [] = refl
eq_text_refl (a ∷ s) = ground (arith, eq_text_refl s)

-- `startsWith` and `includes` (also `indexOf(t) !== -1`).
abbrev pub is_prefix : Text → Text → Bool
is_prefix [] s = true
is_prefix (_ ∷ _) [] = false
is_prefix (a ∷ t) (b ∷ s) = a == b && is_prefix t s

abbrev pub includes : Text → Text → Bool
includes [] t = is_prefix t []
includes (a ∷ s) t = is_prefix t (a ∷ s) || includes s t

-- The white space and line ends that `trim` removes.
abbrev pub is_space : ℕ → Bool
is_space c =
    leb 9 c && leb c 13
    || c == 32
    || c == 0xa0
    || c == 0x1680
    || leb 0x2000 c && leb c 0x200a
    || c == 0x2028
    || c == 0x2029
    || c == 0x202f
    || c == 0x205f
    || c == 0x3000
    || c == 0xfeff

trim_start : Text → Text
trim_start [] = []
trim_start (c ∷ s) = let rest = trim_start s in if is_space c then rest else c ∷ s

unfoldable pub trim : Text → Text
unfolding trim_start
trim s = reverse (trim_start (reverse (trim_start s)))

-- `s.padStart(n, c)` and `s.slice(-n)`.
abbrev pub pad_start : ℕ → ℕ → Text → Text
pad_start n c s = replicate (n - length s) c ++ s

abbrev pub slice_last : ℕ → Text → Text
slice_last n s = drop (length s - n) s

-- The parts of the engine that rest on Unicode tables and the locale of the browser, which are
-- parameters: `toLowerCase`, `toUpperCase` and the sign of `localeCompare`.
pub record Locale : Type 0 where
  pub lower : Text → Text
  pub upper : Text → Text
  pub compare : Text → Text → ℤ
