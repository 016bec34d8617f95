-- ===== src/HttpClient/Blocks.antt =====
-- asiolib/http-client-async.hpp: which buffers the header loop of `on_headers_received` reads, and what it
-- stores. It takes a line up to a carriage return and drops the next byte, whatever that is.
use boost_asio_samples.Base.{
  ℕ, zero, suc, ◌+◌, ◌≤◌, true, false, Option, none, some, List, [], ◌∷◌, ◌++◌, ◌≡◌, ◌⊎◌, refl, ap,
  sym, ◌∙◌, inl, inr, Bytes, Without, length, length-append, length-after, after_fresh, before,
  after, before-after, before-Without, Option-cases, arith,
}
use mathlib.Core.Path.{subst}
use boost_asio_samples.Dict.{text_eq, insert}
use boost_asio_samples.Errors.{failed, ErrorCode, AsioError}
use boost_asio_samples.Stream.{IStream, open_stream, getline, get}
use boost_asio_samples.Stream.Reads.{getline-append}
use boost_asio_samples.HttpClient.Request.{HttpResponse, HttpRequest, hung, read_all}
use boost_asio_samples.HttpClient.Headers.{find, add_header, read_header, read_headers, rounds_for}
use boost_asio_samples.HttpClient.{
  on_headers_received, headers_done, store_headers, unless_cancelled,
}
use boost_asio_samples.HttpClient.Parsing.{IsLine, read_header-append}
use boost_asio_samples.HttpClient.Hanging.{read_headers_unready, read_headers_tail}

abbrev pub tail : Bytes → Bytes
tail [] = []
tail (x ∷ xs) = xs

-- A buffer that the loop reads to an end, the lines that it takes and what it leaves in the buffer.
pub data Block : Bytes → List Bytes → Bytes → Type 0 where
  exhausted : Block [] [] []
  empty_line : (r : Bytes) → Block (b'\r' ∷ r) [] (tail r)
  line :
      (l : Bytes) (x : ℕ) (r : Bytes) (ls : List Bytes) (rest : Bytes)
      → IsLine l
      → Block r ls rest
      → Block (l ++ b'\r' ∷ x ∷ r) (l ∷ ls) rest

-- A line with a colon is a header; any other is dropped.
abbrev pub stored : Bytes → Option Bytes → HttpResponse → HttpResponse
stored name none p = p
stored name (some value) p = record p { headers = insert name value p.headers }

abbrev pub stored_line : Bytes → HttpResponse → HttpResponse
stored_line l p = stored (before b':' l) (after b':' l) p

abbrev pub stored_lines : List Bytes → HttpResponse → HttpResponse
stored_lines [] p = p
stored_lines (l ∷ ls) p = stored_lines ls (stored_line l p)

find-none : (c : ℕ) (xs : Bytes) → after c xs ≡ none → find c xs ≡ none
unfolding find after
find-none c [] h = refl
find-none c (x ∷ xs) h = ground (arith, find-none c xs)

read_header-none : (l : Bytes) (p : HttpResponse) → find b':' l ≡ none → read_header l p ≡ p
unfolding read_header
read_header-none l p h = rw (h, read_header) refl

read_header_lem : (l : Bytes) (p : HttpResponse) → read_header l p ≡ stored_line l p
unfolding add_header
read_header_lem l p = elim (Option-cases (after b':' l)) [
  | inl missing ↦
      read_header-none l p (find-none b':' l missing)
      ∙ ap (λ o. stored (before b':' l) o p) (sym missing)
  | inr (value, found) ↦
      ap (λ t. read_header t p) (before-after b':' l value found)
      ∙ read_header-append (before b':' l) value p (before-Without b':' l)
      ∙ ap (λ o. stored (before b':' l) o p) (sym found)
]

read_headers_exhausted :
    (n : ℕ) (header : Bytes) (p : HttpResponse)
    → (s : IStream) × (read_headers (suc n) header (open_stream []) p ≡ some (p, s)) × (s.rest ≡ [])
unfolding read_headers getline get
read_headers_exhausted n header p =
    (record { rest = []; eof = true; fail = true }, ground (arith, after_fresh b'\r' [] tt), refl)

rest_tail : (r : Bytes) → (get (open_stream r)).rest ≡ tail r
unfolding get
rest_tail [] = refl
rest_tail (x ∷ r) = refl

read_headers_empty :
    (n : ℕ) (header r : Bytes) (p : HttpResponse)
    → read_headers (suc n) header (open_stream (b'\r' ∷ r)) p ≡ some (p, get (open_stream r))
unfolding read_headers
read_headers_empty n header r p = rw (getline-append b'\r' header [] r tt, read_headers) refl

read_headers_more :
    (n : ℕ) (header l : Bytes) (x : ℕ) (r : Bytes) (p : HttpResponse)
    → IsLine l
    → read_headers (suc n) header (open_stream (l ++ b'\r' ∷ x ∷ r)) p
      ≡ read_headers n l (open_stream r) (stored_line l p)
unfolding read_headers get
read_headers_more n header [] x r p h = absurd (h.0 refl)
read_headers_more n header (c ∷ l) x r p h =
    (rw (getline-append b'\r' header (c ∷ l) (x ∷ r) h.1, read_headers) refl)
    ∙ ap (λ q. read_headers n (c ∷ l) (open_stream r) q) (read_header_lem (c ∷ l) p)

-- The loop on such a buffer.
Block-read :
    {b : Bytes} {ls : List Bytes} {rest : Bytes} (n : ℕ) (header : Bytes) (p : HttpResponse)
    → Block b ls rest
    → length b + 2 ≤ n
    → (s : IStream) × (read_headers n header (open_stream b) p ≡ some (stored_lines ls p, s))
      × (s.rest ≡ rest)
Block-read zero header p block le = absurd (omega arith)
Block-read (suc n) header p exhausted le = read_headers_exhausted n header p
Block-read (suc n) header p (empty_line r) le =
    (get (open_stream r), read_headers_empty n header r p, rest_tail r)
Block-read (suc n) header p (line l x r ls rest h block) le =
    let (s, read, left) =
      Block-read n l (stored_line l p) block (omega (arith, le, length-append l (b'\r' ∷ x ∷ r))) in
    (s, read_headers_more n header l x r p h ∙ read, left)

-- The buffer is one that the loop reads to an end, or one on which no number of rounds ends it.
abbrev pub Decided : Bytes → Type 0
Decided b =
    ((ls : List Bytes) × (rest : Bytes) × Block b ls rest)
    ⊎ ((rounds : ℕ) (header : Bytes) (p : HttpResponse)
        → read_headers rounds header (open_stream b) p ≡ none)

no_rounds :
    (header b : Bytes) (p : HttpResponse)
    → ((n : ℕ) → read_headers (suc n) header (open_stream b) p ≡ none)
    → (rounds : ℕ) → read_headers rounds header (open_stream b) p ≡ none
unfolding read_headers
no_rounds header b p more zero = refl
no_rounds header b p more (suc n) = more n

-- A carriage return that ends the buffer.
stuck_at_end :
    (n : ℕ) (header : Bytes) (c : ℕ) (l : Bytes) (p : HttpResponse)
    → Without b'\r' (c ∷ l)
    → read_headers (suc n) header (open_stream ((c ∷ l) ++ b'\r' ∷ [])) p ≡ none
unfolding read_headers get
stuck_at_end n header c l p h =
    rw (getline-append b'\r' header (c ∷ l) [] h, read_headers)
      (read_headers_unready n (c ∷ l) _ _ (λ e. cc) refl)

tail-Decided : (b : Bytes) → after b'\r' b ≡ none → Decided b
tail-Decided [] missing = inl ([], [], exhausted)
tail-Decided (x ∷ b) missing =
    inr λ rounds header p. read_headers_tail rounds header (x ∷ b) p (λ e. cc) missing

line-Decided : (l r : Bytes) → Without b'\r' l → Decided (tail r) → Decided (l ++ b'\r' ∷ r)
line-Decided [] r h rest = inl ([], tail r, empty_line r)
line-Decided (c ∷ l) [] h rest = inr λ rounds header p.
    no_rounds header ((c ∷ l) ++ b'\r' ∷ []) p (λ n. stuck_at_end n header c l p h) rounds
line-Decided (c ∷ l) (x ∷ r) h (inl (ls, rest, block)) =
    inl ((c ∷ l) ∷ ls, rest, line (c ∷ l) x r ls rest ((λ e. cc), h) block)
line-Decided (c ∷ l) (x ∷ r) h (inr never) = inr λ rounds header p.
    no_rounds header ((c ∷ l) ++ b'\r' ∷ x ∷ r) p
      (λ n.
        read_headers_more n header (c ∷ l) x r p ((λ e. cc), h)
        ∙ never n (c ∷ l) (stored_line (c ∷ l) p))
      rounds

length-tail : (r : Bytes) → length (tail r) ≤ length r
length-tail [] = omega arith
length-tail (x ∷ r) = omega arith

buffer-Decided : (n : ℕ) (b : Bytes) → length b ≤ n → Decided b
buffer-Decided zero [] le = inl ([], [], exhausted)
buffer-Decided zero (x ∷ b) le = absurd (omega arith)
buffer-Decided (suc n) b le = elim (Option-cases (after b'\r' b)) [
  | inl missing ↦ tail-Decided b missing
  | inr (r, found) ↦ subst Decided (sym (before-after b'\r' b r found)) (
      line-Decided (before b'\r' b) r (before-Without b'\r' b)
        (buffer-Decided n (tail r) (omega (arith, length-tail r, length-after b'\r' b r found))))
]

module _ (asio : AsioError) where
  -- What the handler does with the buffer after a read without an error.
  abbrev pub Handled : ErrorCode → HttpRequest → Type 0
  Handled ec r =
      let b = r.response.response_buf in
      ((ls : List Bytes) × (rest : Bytes) × Block b ls rest
        × (on_headers_received asio ec r
            ≡ unless_cancelled asio read_all (record r {
              response = record (stored_lines ls r.response) { response_buf = rest };
            })))
      ⊎ (((ls : List Bytes) (rest : Bytes) → Block b ls rest → ⊥)
          × ((rounds : ℕ) → read_headers rounds [] (open_stream b) r.response ≡ none)
          × (on_headers_received asio ec r ≡ record r { fate = hung }))

  handled-Block :
      (ec : ErrorCode) (r : HttpRequest) (ls : List Bytes) (rest : Bytes)
      → failed ec ≡ false
      → Block r.response.response_buf ls rest
      → on_headers_received asio ec r
        ≡ unless_cancelled asio read_all
            (record r { response = record (stored_lines ls r.response) { response_buf = rest } })
  unfolding on_headers_received headers_done store_headers
  handled-Block ec r ls rest ok block =
      let b = r.response.response_buf in
      let (s, read, left) = Block-read (rounds_for b) [] r.response block (omega arith) in
      rw (ok, on_headers_received)
        (ap (λ o. headers_done asio o r) read
          ∙ ap
              (λ t.
                unless_cancelled asio read_all (record r {
                  response = record (stored_lines ls r.response) { response_buf = t };
                }))
              left)

  handled_hung :
      (ec : ErrorCode) (r : HttpRequest)
      → failed ec ≡ false
      → read_headers
          (rounds_for r.response.response_buf)
          []
          (open_stream r.response.response_buf)
          r.response
        ≡ none
      → on_headers_received asio ec r ≡ record r { fate = hung }
  unfolding on_headers_received headers_done
  handled_hung ec r ok none_left =
      rw (ok, on_headers_received) (ap (λ o. headers_done asio o r) none_left)

  -- After a read without an error the buffer decides what the handler does. Where it is made of lines
  -- that are not empty, each with a carriage return and one byte more, up to an empty line or to
  -- nothing: the headers of exactly these lines are stored in order, the buffer keeps what follows the
  -- empty line and the byte behind it, and the body is read next unless the request is cancelled. On
  -- every other buffer no number of rounds ends the loop, so that the handler hangs.
  pub headers_decided : (ec : ErrorCode) (r : HttpRequest) → failed ec ≡ false → Handled ec r
  headers_decided ec r ok =
      let b = r.response.response_buf in
      elim (buffer-Decided (length b) b (omega arith)) [
        | inl (ls, rest, block) ↦ inl (ls, rest, block, handled-Block ec r ls rest ok block)
        | inr never ↦ inr (
          (λ ls rest block.
              let (s, read, left) = Block-read (rounds_for b) [] r.response block (omega arith) in
              let none_left = never (rounds_for b) [] r.response in absurd cc),
          (λ rounds. never rounds [] r.response),
          handled_hung ec r ok (never (rounds_for b) [] r.response),
        )
      ]
