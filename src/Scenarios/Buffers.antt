-- ===== src/Scenarios/Buffers.antt =====
-- `GetBuffer` of asiolib/io_buffers.hpp, and basics/io_buffers.cpp.
use boost_asio_samples.Base.{
  ℕ, ◌≡◌, refl, not, [], ◌∷◌, ◌++◌, Bytes, codes, length, bytes_eq, is_empty, ◌==◌, Without,
}
use boost_asio_samples.Setup.Tried.{returns}
use boost_asio_samples.Stream.{open_stream, getline}
use boost_asio_samples.Stream.Reads.{getline-append, getline_last}
use boost_asio_samples.Scenarios.Report.{Report}

-- `asio::mutable_buffer`, `asio::const_buffer`: where the bytes are and how many.
pub record Buffer : Type 0 where
  pub address : ℕ
  pub size : ℕ

-- A `std::string`: where its characters are, and these.
pub record Text : Type 0 where
  pub place : ℕ
  pub bytes : Bytes

-- `GetBuffer` of a string, whether it may be written or not
unfoldable pub get_buffer : Text → Buffer
get_buffer s = record { address = s.place; size = length s.bytes }

-- `GetBuffer` of a pointer and a size
unfoldable pub get_buffer_at : ℕ → ℕ → Buffer
get_buffer_at input_buffer size = record { address = input_buffer; size = size }

unfoldable pub mutable_buffers : ℕ → Report
mutable_buffers place =
    let buffer : Text = record { place = place; bytes = codes "Hello Dear World!" } in
    returns (((get_buffer buffer).size == length buffer.bytes) ∷ [])

-- `assign` may move the characters.
unfoldable pub mutable_buffer_invalidated_by_operation_on_string : (place moved : ℕ) → Report
mutable_buffer_invalidated_by_operation_on_string place moved =
    let buffer : Text = record { place = place; bytes = codes "Hello Dear World!" } in
    let asio_buffer = get_buffer buffer in
    let assigned : Text = record { place = moved; bytes = codes "Hello hell!" } in
    returns (
      (asio_buffer.size == length buffer.bytes)
      ∷ not (asio_buffer.size == length assigned.bytes)
      ∷ [])

unfoldable pub const_buffers : ℕ → Report
const_buffers place =
    let buffer : Text = record { place = place; bytes = codes "Hello Dear World!" } in
    returns (((get_buffer buffer).size == length buffer.bytes) ∷ [])

-- Three calls of `getline` with the same string, on a stream over `output`.
unfoldable pub three_lines : Bytes → Bytes × Bytes × Bytes
three_lines output =
    let first = getline b'\n' [] (open_stream output) in
    let second = getline b'\n' first.0 first.1 in
    let third = getline b'\n' second.0 second.1 in (first.0, second.0, third.0)

unfoldable pub streambuf : Report
streambuf =
    let lines = three_lines (
      codes "This is a simple test!"
      ++ b'\n' ∷ codes "Try to understand with more details!"
      ++ b'\n' ∷ []) in
    returns (
      bytes_eq (codes "This is a simple test!") lines.0
      ∷ bytes_eq (codes "Try to understand with more details!") lines.1
      ∷ is_empty lines.2
      ∷ [])

-- Of two lines that are written, each with its end, the first two reads give these, and the third, which
-- finds nothing more, empties the string.
pub two_lines_read :
    (a b : Bytes)
    → Without b'\n' a
    → Without b'\n' b
    → three_lines (a ++ b'\n' ∷ (b ++ b'\n' ∷ [])) ≡ (a, b, [])
unfolding three_lines
two_lines_read a b fresh_a fresh_b =
    rw
      (
        getline-append b'\n' [] a (b ++ b'\n' ∷ []) fresh_a,
        getline-append b'\n' a b [] fresh_b,
        getline_last b'\n' b [] tt,
      )
      refl
