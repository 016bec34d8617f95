-- ===== src/Decimal.antt =====
-- `std::to_string` of an unsigned number and `std::stoul`, which the HTTP code uses for ports,
-- lengths and status codes. The project is built by Visual C++, where `unsigned long` has 32 bits.
pub mod RoundTrip
use Prim.Native.Nat.{◌+◌, ◌-◌, ◌*◌, ◌/◌, ◌%◌, ◌^◌, ◌<◌}
use mathlib.Core.Logic.{dite}
use mathlib.Core.WellFounded.{Acc}
use native.Mathlib.Decide.{dec_lt}
use boost_asio_samples.Base.{
  ℕ, Bool, true, false, ◌&&◌, Option, none, some, List, [], ◌∷◌, ◌≡◌, refl, Bytes, codes, leb, ltb,
  ◌==◌, if◌then◌else◌, lt_wf, arith,
}
use boost_asio_samples.Stream.{skip_spaces}

abbrev pub ulong_mod : ℕ
ulong_mod = 2 ^ 32

-- The digits of `n` in front of `out`; nothing for zero.
digits : (n : ℕ) → Acc ◌<◌ n → Bytes → Bytes
digits n (Acc.intro _ smaller) out =
    dite (dec_lt 0 n)
      (λ h. digits (n / 10) (smaller (n / 10) (omega arith)) ((b'0' + n % 10) ∷ out)) (λ _. out)

unfoldable pub to_string : ℕ → Bytes
unfolding digits
to_string n = if n == 0 then b'0' ∷ [] else digits n (lt_wf.apply n) []

abbrev pub is_digit : ℕ → Bool
is_digit c = leb b'0' c && leb c b'9'

-- `strtoul` in base 10: the longest run of digits, and whether there was one.
pub scan : Bytes → ℕ → ℕ
scan [] acc = acc
scan (c ∷ s) acc = let rest = scan s (acc * 10 + (c - b'0')) in if is_digit c then rest else acc

-- No digit is `std::invalid_argument`, too large a number is `std::out_of_range`.
unsigned_value : Bytes → Option ℕ
unfolding scan
unsigned_value [] = none
unsigned_value (c ∷ s) =
    if is_digit c
    then (if ltb (scan (c ∷ s) 0) ulong_mod then some (scan (c ∷ s) 0) else none)
    else none

-- A minus sign negates the value in the unsigned type.
negate : Option ℕ → Option ℕ
negate none = none
negate (some v) = some ((ulong_mod - v) % ulong_mod)

signed_value : Bytes → Option ℕ
unfolding unsigned_value negate
signed_value [] = none
signed_value (c ∷ s) =
    if c == b'-'
    then negate (unsigned_value s)
    else if c == b'+'
    then unsigned_value s
    else unsigned_value (c ∷ s)

-- `none` is an exception, which is a `std::logic_error` in either case.
unfoldable pub stoul : Bytes → Option ℕ
unfolding signed_value
stoul s = signed_value (skip_spaces s)

to_string_samples : (to_string 0 ≡ codes "0") × (to_string 4096 ≡ codes "4096")
unfolding to_string lt_wf dec_lt
to_string_samples = (refl, refl)

stoul_samples :
    (stoul (codes " 200OK") ≡ some 200)
    × (stoul (codes "OK") ≡ none)
    × (stoul (codes "-1") ≡ some 4294967295)
    × (stoul (codes "4294967296") ≡ none)
unfolding stoul skip_spaces
stoul_samples = (refl, refl, refl, refl)
