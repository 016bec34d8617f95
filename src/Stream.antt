-- ===== src/Stream.antt =====
-- `std::istream` over a byte buffer, as the handlers use it: `std::getline`, `get()` and `>>` of a
-- string, with the stream state that decides whether the next call reads anything.
pub mod Reads
use boost_asio_samples.Base.{
  ℕ, Bool, true, false, ◌&&◌, ◌||◌, not, Option, none, some, List, [], ◌∷◌, Bytes, is_empty, before,
  after, leb, ◌==◌, if◌then◌else◌,
}

-- `rest` is what the stream buffer still holds; `eof` and `fail` are `eofbit` and `failbit`.
pub record IStream : Type 0 where
  pub rest : Bytes
  pub eof : Bool
  pub fail : Bool

-- A stream that is constructed over a buffer.
abbrev pub open_stream : Bytes → IStream
open_stream b = record { rest = b; eof = false; fail = false }

abbrev pub good : IStream → Bool
good s = not s.eof && not s.fail

-- `std::getline(s, str, d)`: an unready stream leaves `str` as it was and sets `failbit`.
read_line : ℕ → IStream → Bytes × IStream
read_line d s = elim (after d s.rest) [
  | some r ↦ (before d s.rest, record s { rest = r })
  | none ↦ (s.rest, record { rest = []; eof = true; fail = is_empty s.rest })
]

unfoldable pub getline : ℕ → Bytes → IStream → Bytes × IStream
unfolding read_line
getline d str s = if good s then read_line d s else (str, record s { fail = true })

-- `s.get()`, with its result dropped.
get_byte : Bytes → IStream
get_byte [] = record { rest = []; eof = true; fail = true }
get_byte (x ∷ xs) = open_stream xs

unfoldable pub get : IStream → IStream
unfolding get_byte
get s = if good s then get_byte s.rest else record s { fail = true }

-- `std::isspace` in the "C" locale.
abbrev pub is_space : ℕ → Bool
is_space c = (leb 9 c && leb c 13) || c == 32

unfoldable pub skip_spaces : Bytes → Bytes
skip_spaces [] = []
skip_spaces (x ∷ xs) = let rest = skip_spaces xs in if is_space x then rest else x ∷ xs

unfoldable pub take_word : Bytes → Bytes
take_word [] = []
take_word (x ∷ xs) = let rest = take_word xs in if is_space x then [] else x ∷ rest

unfoldable pub drop_word : Bytes → Bytes
drop_word [] = []
drop_word (x ∷ xs) = let rest = drop_word xs in if is_space x then x ∷ xs else rest

-- `s >> str`: skips white space, and at the end of the buffer leaves `str` as it was.
read_word : Bytes → Bytes → Bytes × IStream
read_word str [] = (str, record { rest = []; eof = true; fail = true })
read_word str (x ∷ xs) = (
  take_word (x ∷ xs),
  record { rest = drop_word (x ∷ xs); eof = is_empty (drop_word (x ∷ xs)); fail = false },
)

unfoldable pub extract : Bytes → IStream → Bytes × IStream
unfolding read_word
extract str s =
    if good s then read_word str (skip_spaces s.rest) else (str, record s { fail = true })
