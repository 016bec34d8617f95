-- ===== src/HttpService/Loop.antt =====
-- asiolib/http-service-async.hpp: the rounds of the header loop of `on_headers_received`.
use boost_asio_samples.Base.{
  ℕ, zero, suc, ◌+◌, ◌≤◌, ◌<◌, true, Option, none, some, [], ◌∷◌, ◌++◌, ◌≡◌, refl, ap, ◌∙◌, inl,
  inr, Bytes, is_empty, after-append, before-append, All, Without, length, length-append,
  length-after, after, before, after_fresh, Option-cases, arith,
}
use boost_asio_samples.Dict.{Dict, text_eq, insert}
use boost_asio_samples.Stream.{IStream, open_stream, get}
use boost_asio_samples.Stream.Reads.{getline-some, getline-none}
use boost_asio_samples.HttpService.Headers.{read_headers, rounds_for}

abbrev Result : Type 0
Result = Option (Dict Bytes Bytes × IStream)

abbrev Ends : Result → Type 0
Ends r = (a : Dict Bytes Bytes × IStream) × (r ≡ some a)

read_headers_eof :
    (n : ℕ) (name value : Bytes) (s : IStream) (hs : Dict Bytes Bytes)
    → s.eof ≡ true
    → read_headers (suc n) name value s hs ≡ some (hs, s)
unfolding read_headers
read_headers_eof n name value s hs h = rw (h, read_headers)

abbrev pub at_end : Bytes → IStream
at_end b = record { rest = []; eof = true; fail = is_empty b }

-- No colon is left: one more round ends the loop.
read_headers_last :
    (n : ℕ) (name value b : Bytes) (hs : Dict Bytes Bytes)
    → after b':' b ≡ none
    → read_headers (suc (suc n)) name value (open_stream b) hs ≡ some (hs, at_end b)
unfolding read_headers
read_headers_last n name value b hs h =
    rw (getline-none b':' name b h, read_headers) (read_headers_eof n b value (at_end b) hs refl)

-- A name and a value are stored.
read_headers_step :
    (n : ℕ) (name value b r r' : Bytes) (hs : Dict Bytes Bytes)
    → after b':' b ≡ some r
    → after b'\r' r ≡ some r'
    → read_headers (suc n) name value (open_stream b) hs
      ≡ read_headers n
          (before b':' b)
          (before b'\r' r)
          (get (open_stream r'))
          (insert (before b':' b) (before b'\r' r) hs)
unfolding read_headers
read_headers_step n name value b r r' hs h k =
    rw (getline-some b':' name b r h, read_headers) (rw (getline-some b'\r' value r r' k) refl)

-- The buffer ends in a value: it is stored, and the next round ends the loop.
read_headers_cut :
    (n : ℕ) (name value b r : Bytes) (hs : Dict Bytes Bytes)
    → after b':' b ≡ some r
    → after b'\r' r ≡ none
    → read_headers (suc (suc n)) name value (open_stream b) hs
      ≡ some (insert (before b':' b) r hs, get (at_end r))
unfolding read_headers get
read_headers_cut n name value b r hs h k =
    rw (getline-some b':' name b r h, read_headers)
      (rw (getline-none b'\r' value r k)
        (read_headers_eof n (before b':' b) r (get (at_end r)) (insert (before b':' b) r hs) refl))

read_headers_rest :
    (n : ℕ) (name value r : Bytes) (hs : Dict Bytes Bytes)
    → ((x : ℕ) (xs : Bytes)
        → r ≡ x ∷ xs
        → Ends (read_headers (suc n) name value (open_stream xs) hs))
    → Ends (read_headers (suc n) name value (get (open_stream r)) hs)
unfolding get
read_headers_rest n name value [] hs ih =
    ((hs, get (open_stream [])), read_headers_eof n name value (get (open_stream [])) hs refl)
read_headers_rest n name value (x ∷ xs) hs ih = ih x xs refl

-- The loop ends on every buffer, within two rounds more than it has bytes.
pub read_headers_total :
    (n : ℕ) (name value b : Bytes) (hs : Dict Bytes Bytes)
    → length b + 1 < n
    → (a : Dict Bytes Bytes × IStream) × (read_headers n name value (open_stream b) hs ≡ some a)
read_headers_total zero name value b hs lt = absurd (omega arith)
read_headers_total (suc zero) name value b hs lt = absurd (omega arith)
read_headers_total (suc (suc n)) name value b hs lt = elim (Option-cases (after b':' b)) [
  | inl h ↦ ((hs, at_end b), read_headers_last n name value b hs h)
  | inr (r, h) ↦ elim (Option-cases (after b'\r' r)) [
    | inl k ↦
        ((insert (before b':' b) r hs, get (at_end r)), read_headers_cut n name value b r hs h k)
    | inr (r', k) ↦
        let line = before b':' b in
        let text = before b'\r' r in
        rw (read_headers_step (suc n) name value b r r' hs h k) (
          read_headers_rest n line text r' (insert line text hs) λ x xs e.
            read_headers_total (suc n) line text xs (insert line text hs)
              (omega (arith, length-after b':' b r h, length-after b'\r' r r' k, ap length e)))
  ]
]

-- A header as it stands in a message, with `rest` behind it.
abbrev pub render_pairs : Dict Bytes Bytes → Bytes → Bytes
render_pairs [] rest = rest
render_pairs ((name, value) ∷ ps) rest =
    name ++ b':' ∷ (value ++ b'\r' ∷ b'\n' ∷ render_pairs ps rest)

abbrev pub IsHeader : Bytes × Bytes → Type 0
IsHeader (name, value) = Without b':' name × Without b'\r' value

abbrev pub insert_pairs : Dict Bytes Bytes → Dict Bytes Bytes → Dict Bytes Bytes
insert_pairs [] hs = hs
insert_pairs ((name, value) ∷ ps) hs = insert_pairs ps (insert name value hs)

read_headers_pairs :
    (ps : Dict Bytes Bytes) (n : ℕ) (name value tail : Bytes) (hs : Dict Bytes Bytes)
    → All IsHeader ps
    → Without b':' tail
    → length ps + 1 < n
    → read_headers n name value (open_stream (render_pairs ps tail)) hs
      ≡ some (insert_pairs ps hs, at_end tail)
unfolding get
read_headers_pairs ps zero name value tail hs h plain lt = absurd (omega arith)
read_headers_pairs ps (suc zero) name value tail hs h plain lt = absurd (omega arith)
read_headers_pairs [] (suc (suc n)) name value tail hs h plain lt =
    read_headers_last n name value tail hs (after_fresh b':' tail plain)
read_headers_pairs ((k, v) ∷ ps) (suc (suc n)) name value tail hs h plain lt =
    let more = b'\n' ∷ render_pairs ps tail in
    let found = after-append b':' k (v ++ b'\r' ∷ more) h.0.0 in
    let ends = after-append b'\r' v more h.0.1 in
    read_headers_step (suc n) name value (k ++ b':' ∷ (v ++ b'\r' ∷ more)) (v ++ b'\r' ∷ more) more
      hs found ends
    ∙ rw (before-append b':' k (v ++ b'\r' ∷ more) h.0.0) (
        rw (before-append b'\r' v more h.0.1)
          (read_headers_pairs ps (suc n) k v tail (insert k v hs) h.1 plain (omega arith)))

length-render_pairs :
    (ps : Dict Bytes Bytes) (rest : Bytes) → length ps ≤ length (render_pairs ps rest)
length-render_pairs [] rest = omega arith
length-render_pairs ((k, v) ∷ ps) rest = omega (
  arith,
  length-append k (b':' ∷ (v ++ b'\r' ∷ b'\n' ∷ render_pairs ps rest)),
  length-append v (b'\r' ∷ b'\n' ∷ render_pairs ps rest),
  length-render_pairs ps rest,
)

-- The loop stores the headers of a block in order and takes the whole buffer, whatever follows the
-- block without a colon; the rounds that the model allows are enough.
pub header_block_read :
    (ps : Dict Bytes Bytes) (tail : Bytes) (hs : Dict Bytes Bytes)
    → All IsHeader ps
    → Without b':' tail
    → let b = render_pairs ps tail in
      read_headers (rounds_for b) [] [] (open_stream b) hs ≡ some (insert_pairs ps hs, at_end tail)
header_block_read ps tail hs h plain =
    read_headers_pairs ps _ [] [] tail hs h plain (omega (arith, length-render_pairs ps tail))
