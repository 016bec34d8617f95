-- ===== src/Decimal/RoundTrip.antt =====
-- What `std::stoul` reads of a text that `std::to_string` has made.
use Prim.Native.Nat.{◌+◌, ◌-◌, ◌*◌, ◌/◌, ◌%◌, ◌<◌}
use mathlib.Core.WellFounded.{Acc}
use boost_asio_samples.Base.{
  ℕ, true, false, some, [], ◌∷◌, ◌++◌, ◌≡◌, ◌≢◌, refl, Bytes, All, Without, lt_wf, arith,
}
use boost_asio_samples.Stream.{skip_spaces}
use boost_asio_samples.Decimal.{digits, to_string, is_digit, scan, stoul, ulong_mod}

abbrev pub IsDigits : Bytes → Type 0
IsDigits = All λ c. is_digit c ≡ true

digits-IsDigits : (n : ℕ) (w : Acc ◌<◌ n) (out : Bytes) → IsDigits out → IsDigits (digits n w out)
unfolding digits
digits-IsDigits n (Acc.intro _ smaller) out h =
    grind (arith, λ (p : n / 10 < n). digits-IsDigits (n / 10) (smaller (n / 10) p))

pub to_string-IsDigits : (n : ℕ) → IsDigits (to_string n)
unfolding to_string
to_string-IsDigits n = ground (arith, digits-IsDigits n (lt_wf.apply n) [])

-- The value of a printed number, with `out` behind it.
scan-digits : (n : ℕ) (w : Acc ◌<◌ n) (out : Bytes) → scan (digits n w out) 0 ≡ scan out n
unfolding digits scan
scan-digits n (Acc.intro _ smaller) out =
    grind
      (arith, λ (p : n / 10 < n). scan-digits (n / 10) (smaller (n / 10) p) ((b'0' + n % 10) ∷ out))

-- `scan` of a text that starts by digits and then leaves them.
scan-append :
    (ds : Bytes) (acc : ℕ) → IsDigits ds → (r : Bytes) → scan (ds ++ r) acc ≡ scan r (scan ds acc)
unfolding scan
scan-append [] acc h r = refl
scan-append (c ∷ ds) acc h r = ground (arith, scan-append ds (acc * 10 + (c - b'0')) h.1 r)

digits-ne-nil : (n : ℕ) (w : Acc ◌<◌ n) (out : Bytes) → out ≢ [] → digits n w out ≢ []
unfolding digits
digits-ne-nil n (Acc.intro _ smaller) out h =
    grind (
      arith,
      λ (p : n / 10 < n). digits-ne-nil (n / 10) (smaller (n / 10) p) ((b'0' + n % 10) ∷ out),
    )

digits_pos : (n : ℕ) (w : Acc ◌<◌ n) → 0 < n → digits n w [] ≢ []
unfolding digits
digits_pos n (Acc.intro _ smaller) h =
    grind (
      arith,
      λ (p : n / 10 < n). digits-ne-nil (n / 10) (smaller (n / 10) p) ((b'0' + n % 10) ∷ []),
    )

pub to_string-ne-nil : (n : ℕ) → to_string n ≢ []
unfolding to_string
to_string-ne-nil n = ground (arith, digits_pos n (lt_wf.apply n))

scan-to_string : (n : ℕ) → scan (to_string n) 0 ≡ n
unfolding to_string scan
scan-to_string n = ground (arith, scan-digits n (lt_wf.apply n) [])

-- A text of digits is what its value says, if that fits.
stoul-IsDigits :
    (ds : Bytes) → IsDigits ds → ds ≢ [] → scan ds 0 < ulong_mod → stoul ds ≡ some (scan ds 0)
unfolding stoul skip_spaces
stoul-IsDigits [] h ne lt = absurd (ne refl)
stoul-IsDigits (c ∷ ds) h ne lt = ground arith

-- White space in front of the digits does not matter.
pub stoul_space : (s : Bytes) → stoul (b' ' ∷ s) ≡ stoul s
unfolding stoul skip_spaces
stoul_space s = refl

-- The text of `std::to_string` of a number below 2^32 is read back by `std::stoul` as that number.
pub stoul-to_string : (n : ℕ) → n < ulong_mod → stoul (to_string n) ≡ some n
stoul-to_string n h =
    rw scan-to_string at (
      stoul-IsDigits (to_string n) (to_string-IsDigits n) (to_string-ne-nil n)
        (rw scan-to_string h))

digit-ne : (d : ℕ) → is_digit d ≡ false → (ds : Bytes) → IsDigits ds → Without d ds
digit-ne d h [] hs = tt
digit-ne d h (c ∷ ds) hs = ((λ e. cc), digit-ne d h ds hs.1)

-- A printed number holds no byte that is no digit.
pub to_string-Without : (d n : ℕ) → is_digit d ≡ false → Without d (to_string n)
to_string-Without d n h = digit-ne d h (to_string n) (to_string-IsDigits n)
