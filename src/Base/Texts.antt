-- ===== src/Base/Texts.antt =====
-- Byte strings: `std::string` and the contents of `asio::streambuf` as lists of byte values.
use Prim.Native.Nat.{ℕ, ◌<◌}
use Prim.Native.Char.{code}
use Prim.Native.String.{String}
use mathlib.Core.Path.{◌≡◌, refl}
use mathlib.Core.Logic.{◌≢◌, ◌↔◌}
use mathlib.Core.Bool.{Bool, true, false, ◌&&◌, not}
use mathlib.Core.Option.{Option, none, some}
use mathlib.Core.List.{List, [], ◌∷◌, ◌++◌}
use native.Mathlib.Omega.{arith}
use boost_asio_samples.Base.Tests.{◌==◌, if◌then◌else◌}
use boost_asio_samples.Base.Lists.{All, length}

abbrev pub Bytes : Type 0
Bytes = List ℕ

-- The bytes of a literal of the source; every one is ASCII.
abbrev pub codes : String → Bytes
codes String.[] = []
codes (String.◌∷◌ c s) = code c ∷ codes s

abbrev pub is_empty : Bytes → Bool
is_empty [] = true
is_empty (x ∷ xs) = false

unfoldable pub bytes_eq : Bytes → Bytes → Bool
bytes_eq [] [] = true
bytes_eq (x ∷ xs) (y ∷ ys) = x == y && bytes_eq xs ys
bytes_eq _ _ = false

pub bytes_eq_iff : (a b : Bytes) → (bytes_eq a b ≡ true) ↔ (a ≡ b)
unfolding bytes_eq
bytes_eq_iff (x ∷ a) (y ∷ b) = ground (arith, bytes_eq_iff a b)
bytes_eq_iff _ _ = ground arith

pub bytes_eq_refl : (a : Bytes) → bytes_eq a a ≡ true
bytes_eq_refl a = (bytes_eq_iff a a).1 refl

-- What stands before the first byte `d`: everything, where there is none.
unfoldable pub before : ℕ → Bytes → Bytes
before d [] = []
before d (x ∷ xs) = if x == d then [] else x ∷ before d xs

-- What stands after the first byte `d`.
unfoldable pub after : ℕ → Bytes → Option Bytes
after d [] = none
after d (x ∷ xs) = if x == d then some xs else after d xs

-- No byte of the text is `d`.
abbrev pub Without : ℕ → Bytes → Type 0
Without d = All λ x. x ≢ d

pub before_fresh : (d : ℕ) (xs : Bytes) → Without d xs → before d xs ≡ xs
unfolding before
before_fresh d [] h = refl
before_fresh d (x ∷ xs) h = ground (arith, before_fresh d xs h.1)

pub after_fresh : (d : ℕ) (xs : Bytes) → Without d xs → after d xs ≡ none
unfolding after
after_fresh d [] h = refl
after_fresh d (x ∷ xs) h = ground (arith, after_fresh d xs h.1)

pub before-append : (d : ℕ) (xs ys : Bytes) → Without d xs → before d (xs ++ d ∷ ys) ≡ xs
unfolding before
before-append d [] ys h = ground arith
before-append d (x ∷ xs) ys h = ground (arith, before-append d xs ys h.1)

pub after-append : (d : ℕ) (xs ys : Bytes) → Without d xs → after d (xs ++ d ∷ ys) ≡ some ys
unfolding after
after-append d [] ys h = ground arith
after-append d (x ∷ xs) ys h = ground (arith, after-append d xs ys h.1)

pub length-after : (d : ℕ) (xs r : Bytes) → after d xs ≡ some r → length r < length xs
unfolding after
length-after d [] r e = ground arith
length-after d (x ∷ xs) r e = ground (arith, length-after d xs r)

pub Without-append : (d : ℕ) (xs ys : Bytes) → Without d xs → Without d ys → Without d (xs ++ ys)
Without-append d [] ys hx hy = hy
Without-append d (x ∷ xs) ys hx hy = (hx.0, Without-append d xs ys hx.1 hy)

-- `Without` of a literal, by evaluation.
abbrev pub free : ℕ → Bytes → Bool
free d [] = true
free d (x ∷ xs) = not (x == d) && free d xs

pub free-Without : (d : ℕ) (xs : Bytes) → free d xs ≡ true → Without d xs
free-Without d [] h = tt
free-Without d (x ∷ xs) h = (ground arith, free-Without d xs (ground arith))

pub before-Without : (d : ℕ) (xs : Bytes) → Without d (before d xs)
unfolding before
before-Without d [] = tt
before-Without d (x ∷ xs) = ground (arith, before-Without d xs)

-- The first byte `d` parts a text in two.
pub before-after : (d : ℕ) (xs r : Bytes) → after d xs ≡ some r → xs ≡ before d xs ++ d ∷ r
unfolding before after
before-after d [] r h = ground arith
before-after d (x ∷ xs) r h = ground (arith, before-after d xs r)

pub before-none : (d : ℕ) (xs : Bytes) → after d xs ≡ none → before d xs ≡ xs
unfolding before after
before-none d [] h = refl
before-none d (x ∷ xs) h = ground (arith, before-none d xs)

pub before-append_found :
    (d : ℕ) (xs ys : Bytes) → after d xs ≢ none → before d (xs ++ ys) ≡ before d xs
unfolding before after
before-append_found d [] ys h = absurd (h refl)
before-append_found d (x ∷ xs) ys h = ground (arith, before-append_found d xs ys)
