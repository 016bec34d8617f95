-- ===== src/Stream/Reads.antt =====
-- What one read of a stream returns, for a buffer that is given in parts.
use boost_asio_samples.Base.{
  ℕ, true, false, ◌≡◌, refl, [], ◌∷◌, ◌++◌, Bytes, Without, All, before-append, after-append,
  after_fresh, is_empty, none, some, before, after, before-none, Option-cases, inl, inr, ap, sym,
  ◌∙◌, arith,
}
use boost_asio_samples.Stream.{
  IStream, open_stream, is_space, getline, skip_spaces, take_word, drop_word, extract,
}

-- A line up to its delimiter.
pub getline-append :
    (d : ℕ) (str xs ys : Bytes)
    → Without d xs
    → getline d str (open_stream (xs ++ d ∷ ys)) ≡ (xs, open_stream ys)
unfolding getline
getline-append d str xs ys h = ground (arith, before-append d xs ys h, after-append d xs ys h)

pub getline_last :
    (d : ℕ) (str xs : Bytes)
    → Without d xs
    → getline d str (open_stream xs) ≡ (xs, record { rest = []; eof = true; fail = is_empty xs })
unfolding getline
getline_last d str xs h = ground (arith, after_fresh d xs h)

-- The same by what the search for the delimiter says.
pub getline-some :
    (d : ℕ) (str b r : Bytes)
    → after d b ≡ some r
    → getline d str (open_stream b) ≡ (before d b, open_stream r)
unfolding getline
getline-some d str b r h = ground arith

pub getline-none :
    (d : ℕ) (str b : Bytes)
    → after d b ≡ none
    → getline d str (open_stream b) ≡ (b, record { rest = []; eof = true; fail = is_empty b })
unfolding getline
getline-none d str b h = ground arith

-- A word of the text has no white space in it.
abbrev pub IsWord : Bytes → Type 0
IsWord = All λ x. is_space x ≡ false

take_word-append :
    (w : Bytes) (c : ℕ) (r : Bytes) → IsWord w → is_space c ≡ true → take_word (w ++ c ∷ r) ≡ w
unfolding take_word
take_word-append [] c r hw hc = ground arith
take_word-append (x ∷ w) c r hw hc = ground (arith, take_word-append w c r)

drop_word-append :
    (w : Bytes) (c : ℕ) (r : Bytes) → IsWord w → is_space c ≡ true → drop_word (w ++ c ∷ r) ≡ c ∷ r
unfolding drop_word
drop_word-append [] c r hw hc = ground arith
drop_word-append (x ∷ w) c r hw hc = ground (arith, drop_word-append w c r)

skip_spaces-IsWord :
    (x : ℕ) (w r : Bytes) → IsWord (x ∷ w) → skip_spaces ((x ∷ w) ++ r) ≡ (x ∷ w) ++ r
unfolding skip_spaces
skip_spaces-IsWord x w r h = rw h.0

-- A word that white space ends, at the front of the buffer.
pub extract-append :
    (str : Bytes) (x : ℕ) (w : Bytes) (c : ℕ) (r : Bytes)
    → IsWord (x ∷ w)
    → is_space c ≡ true
    → extract str (open_stream ((x ∷ w) ++ c ∷ r)) ≡ (x ∷ w, open_stream (c ∷ r))
unfolding extract
extract-append str x w c r hw hc = rw (
  skip_spaces-IsWord x w (c ∷ r) hw,
  take_word-append (x ∷ w) c r hw hc,
  drop_word-append (x ∷ w) c r hw hc,
)

-- White space in front of a word is skipped.
pub extract_space :
    (str : Bytes) (c : ℕ) (r : Bytes)
    → is_space c ≡ true
    → extract str (open_stream (c ∷ r)) ≡ extract str (open_stream r)
unfolding extract skip_spaces
extract_space str c r h = rw h

take_word_all : (w : Bytes) → IsWord w → take_word w ≡ w
unfolding take_word
take_word_all [] h = refl
take_word_all (x ∷ w) h = ground (arith, take_word_all w h.1)

drop_word_all : (w : Bytes) → IsWord w → drop_word w ≡ []
unfolding drop_word
drop_word_all [] h = refl
drop_word_all (x ∷ w) h = ground (arith, drop_word_all w h.1)

-- A word that the end of the buffer ends.
pub extract_last :
    (str : Bytes) (x : ℕ) (w : Bytes)
    → IsWord (x ∷ w)
    → extract str (open_stream (x ∷ w)) ≡ (x ∷ w, record { rest = []; eof = true; fail = false })
unfolding extract skip_spaces
extract_last str x w h = ground (arith, take_word_all (x ∷ w) h, drop_word_all (x ∷ w) h)

-- A word holds no space byte.
pub IsWord-Without : (c : ℕ) (w : Bytes) → is_space c ≡ true → IsWord w → Without c w
IsWord-Without c [] h hw = tt
IsWord-Without c (x ∷ w) h hw = (ground arith, IsWord-Without c w h hw.1)

-- The text of a line is what stands before the delimiter, found or not.
pub getline-before : (d : ℕ) (str b : Bytes) → (getline d str (open_stream b)).0 ≡ before d b
getline-before d str b = elim (Option-cases (after d b)) [
  | inl h ↦ ap (λ (p : Bytes × IStream). p.0) (getline-none d str b h) ∙ sym (before-none d b h)
  | inr (r, h) ↦ ap (λ (p : Bytes × IStream). p.0) (getline-some d str b r h)
]
