-- ===== src/Aggregator/Index.antt =====
-- Which index a namespace has.
use rises.Base.{
  ℕ, zero, suc, ◌+◌, ◌-◌, ◌≤◌, ◌<◌, ◌≡◌, refl, ap, ◌∙◌, sym, Bool, true, false, [], ◌∷◌, ◌++◌, none,
  some, arith, if◌then◌else◌, length, length-append, get_elem?, drop, All, Text, leb, ltb, ◌==◌,
}
use native.Mathlib.Nat.{zero-add, suc-add}
use rises.Base.Strings.{is_digit, read_digits, stoll}
use rises.Aggregator.{max_agv_index, digit_begin, in_range, parse_trailing_index}

abbrev pub ends_in_digit : Text → Bool
ends_in_digit [] = false
ends_in_digit (c ∷ []) = is_digit c
ends_in_digit (c ∷ d ∷ s) = ends_in_digit (d ∷ s)

-- The last character of the first part.
last_kept :
    (p d : Text) (n : ℕ)
    → length p ≡ suc n
    → ends_in_digit p ≡ false
    → (c : ℕ) × (get_elem? (p ++ d) n ≡ some c) × (is_digit c ≡ false)
last_kept [] d n h e = absurd (omega arith)
last_kept (c ∷ []) d zero h e = (c, refl, e)
last_kept (c ∷ []) d (suc n) h e = absurd (omega arith)
last_kept (c ∷ b ∷ p) d zero h e = absurd (omega arith)
last_kept (c ∷ b ∷ p) d (suc n) h e = last_kept (b ∷ p) d n (omega arith) e

get_elem?-append_right : (p d : Text) (i : ℕ) → get_elem? (p ++ d) (length p + i) ≡ get_elem? d i
get_elem?-append_right [] d i = rw zero-add
get_elem?-append_right (c ∷ p) d i = rw suc-add (get_elem?-append_right p d i)

digit_at :
    (d : Text) (i : ℕ)
    → All (λ c. is_digit c ≡ true) d
    → i < length d
    → (c : ℕ) × (get_elem? d i ≡ some c) × (is_digit c ≡ true)
digit_at [] i h lt = absurd (omega arith)
digit_at (c ∷ d) zero h lt = (c, refl, h.0)
digit_at (c ∷ d) (suc i) h lt = digit_at d i h.1 (omega arith)

drop-append : (p d : Text) → drop (length p) (p ++ d) ≡ d
drop-append [] d = refl
drop-append (c ∷ p) d = drop-append p d

stops_at :
    (p d : Text) (n : ℕ) → length p ≡ n → ends_in_digit p ≡ false → digit_begin (p ++ d) n ≡ n
unfolding digit_begin
stops_at p d zero h e = refl
stops_at p d (suc n) h e =
    let (c, found, other) = last_kept p d n h e in rw (digit_begin, found, other) refl

digit_begin-append :
    (p d : Text) (i : ℕ)
    → All (λ c. is_digit c ≡ true) d
    → ends_in_digit p ≡ false
    → i ≤ length d
    → digit_begin (p ++ d) (length p + i) ≡ length p
unfolding digit_begin
digit_begin-append p d zero h e le =
    ap (digit_begin (p ++ d)) (omega arith) ∙ stops_at p d (length p) refl e
digit_begin-append p d (suc i) h e le =
    let (c, found, digit) = digit_at d i h (omega arith) in
    let at : length p + suc i ≡ suc (length p + i) = omega arith in
    let here : get_elem? (p ++ d) (length p + i) ≡ some c = get_elem?-append_right p d i ∙ found in
    rw (at, digit_begin, here, digit) (digit_begin-append p d i h e (omega arith))

in_range-stoll :
    (d : Text)
    → in_range (stoll d)
      ≡ (if leb max_agv_index (read_digits 0 d) then none else some (read_digits 0 d))
unfolding stoll
in_range-stoll d = ground arith

-- A namespace that ends in 1 to 18 digits, the longest such run, has the number that they
-- stand for as its index, if that is below the maximum, and no index of its own otherwise. What
-- stands before the digits does not matter.
pub parse_trailing_index-append :
    (p d : Text)
    → ends_in_digit p ≡ false
    → All (λ c. is_digit c ≡ true) d
    → 1 ≤ length d
    → length d ≤ 18
    → parse_trailing_index (p ++ d)
      ≡ (if leb max_agv_index (read_digits 0 d) then none else some (read_digits 0 d))
unfolding parse_trailing_index stoll
parse_trailing_index-append p d e h one many =
    let size : length (p ++ d) ≡ length p + length d = length-append p d in
    let begin : digit_begin (p ++ d) (length (p ++ d)) ≡ length p =
      ap (digit_begin (p ++ d)) size ∙ digit_begin-append p d (length d) h e (omega arith) in
    let filled : (length (p ++ d) == 0) ≡ false = ground (arith, size) in
    let found : (length p == length (p ++ d)) ≡ false = ground (arith, size) in
    let short : ltb 18 (length (p ++ d) - length p) ≡ false = ground (arith, size) in
    rw (filled, parse_trailing_index, begin, found, short, drop-append p d) (in_range-stoll d)

-- Two namespaces that differ only before their last digits have the same index.
pub index_forgets_prefix :
    (p q d : Text)
    → ends_in_digit p ≡ false
    → ends_in_digit q ≡ false
    → All (λ c. is_digit c ≡ true) d
    → 1 ≤ length d
    → length d ≤ 18
    → parse_trailing_index (p ++ d) ≡ parse_trailing_index (q ++ d)
index_forgets_prefix p q d e f h one many =
    parse_trailing_index-append p d e h one many
    ∙ sym (parse_trailing_index-append q d f h one many)
