-- ===== src/Base/Strings.antt =====
-- Byte strings: literals, `std::string::find`, and runs of decimal digits.
use Prim.Native.Char.{code}
use Prim.Native.String.{String}
use Prim.Native.Nat.{ℕ, suc, ◌+◌, ◌-◌, ◌*◌}
use mathlib.Core.Path.{◌≡◌}
use mathlib.Core.Bool.{Bool, true, false, ◌&&◌}
use mathlib.Core.List.{[], ◌∷◌, ◌++◌}
use mathlib.Core.Option
use mathlib.Core.Logic.{inl, inr}
use mathlib.Core.Option.{Option, none, some}
use native.Mathlib.Omega.{arith}
use rises.Base.Tests.{if◌then◌else◌, leb, ◌==◌, Text, Bool-cases}

-- The bytes of a literal in ASCII.
abbrev pub bytes : String → Text
bytes String.[] = []
bytes (String.◌∷◌ c s) = code c ∷ bytes s

abbrev pub starts_with : Text → Text → Bool
starts_with [] s = true
starts_with (c ∷ p) [] = false
starts_with (c ∷ p) (d ∷ s) = (c == d) && starts_with p s

-- `s.find(p)`: the first position at which `p` stands, `none` for `npos`.
unfoldable pub find : Text → Text → Option ℕ
find p [] = if starts_with p [] then some 0 else none
find p (d ∷ s) = if starts_with p (d ∷ s) then some 0 else Option.map suc (find p s)

abbrev pub is_found : Option ℕ → Bool
is_found none = false
is_found (some i) = true

find_here : (p s : Text) → starts_with p s ≡ true → is_found (find p s) ≡ true
unfolding find
find_here p [] h = rw h
find_here p (d ∷ s) h = rw h

find_later :
    (p : Text) (d : ℕ) (s : Text) → is_found (find p s) ≡ true → is_found (find p (d ∷ s)) ≡ true
unfolding find
find_later p d s h = ground arith

starts_with-append : (p q s : Text) → starts_with (p ++ q) s ≡ true → is_found (find q s) ≡ true
starts_with-append [] q s h = find_here q s h
starts_with-append (c ∷ p) q [] h = cc
starts_with-append (c ∷ p) q (d ∷ s) h = find_later q d s (starts_with-append p q s (ground arith))

-- A text that contains `p ++ q` contains `q`.
pub find-append : (p q s : Text) → is_found (find (p ++ q) s) ≡ true → is_found (find q s) ≡ true
unfolding find
find-append p q [] h = starts_with-append p q [] (ground arith)
find-append p q (d ∷ s) h = elim (Bool-cases (starts_with (p ++ q) (d ∷ s))) [
  | inl e ↦ starts_with-append p q (d ∷ s) e
  | inr e ↦ find_later q d s (find-append p q s (ground arith))
]

abbrev pub is_digit : ℕ → Bool
is_digit c = leb 48 c && leb c 57

-- The text from its first digit on.
abbrev pub skip_to_digit : Text → Text
skip_to_digit [] = []
skip_to_digit (c ∷ s) = if is_digit c then c ∷ s else skip_to_digit s

-- The number that the leading digits stand for, after those read before.
abbrev pub read_digits : ℕ → Text → ℕ
read_digits acc [] = acc
read_digits acc (c ∷ s) = if is_digit c then read_digits (acc * 10 + (c - 48)) s else acc

abbrev pub int64_max : ℕ
int64_max = 9223372036854775807

-- `std::stoll` of a text that starts with a digit: `none` where it throws `std::out_of_range`.
unfoldable pub stoll : Text → Option ℕ
stoll s = if leb (read_digits 0 s) int64_max then some (read_digits 0 s) else none
