-- ===== src/IoBuffers/Wire.antt =====
-- A socket of which each call of `write_some` and `read_some` moves one byte.
use boost_asio_samples.Base.{
  ℕ, ◌≤◌, ◌<◌, ◌≡◌, ◌≢◌, refl, sym, ◌++◌, [], ◌∷◌, Bytes, codes, length, take, drop, after, leb,
  Option, none, some, inl, inr, Bool-cases, take-append-drop, length-take, append-nil,
  if◌then◌else◌, arith,
}
use boost_asio_samples.Errors.{windows}
use boost_asio_samples.IoBuffers.Calls.{Socket, SocketLaws, Result, failed_with, returned, After}

pub record Wire : Type 0 where
  pub sent : Bytes
  pub incoming : Bytes

abbrev write_byte : Bytes → Wire → Result Wire ℕ
write_byte [] w = returned 0 w
write_byte (x ∷ b) w = returned 1 (record w { sent = w.sent ++ x ∷ [] })

abbrev read_byte : Bytes → Wire → Result Wire Bytes
read_byte [] w = failed_with windows.eof w
read_byte (x ∷ b) w = returned (x ∷ []) (record w { incoming = b })

abbrev read_line : Option Bytes → Wire → Result Wire Bytes
read_line none w = failed_with windows.eof w
read_line (some r) w = returned w.incoming (record w { incoming = [] })

abbrev pub wire : Socket
wire = record {
  State = Wire;
  write_some = write_byte;
  read_some = λ n w. read_byte w.incoming w;
  write = λ b w. returned (length b) (record w { sent = w.sent ++ b });
  read = λ n w.
      if leb n (length w.incoming)
      then returned (take n w.incoming) (record w { incoming = drop n w.incoming })
      else failed_with windows.eof w;
  read_until = λ d w. read_line (after d w.incoming) w;
  read_to_end = λ w. ((windows.eof, w.incoming), record w { incoming = [] });
  shutdown_send = λ w. returned tt w;
  what = λ e. codes "end of file";
}

pub write_byte_lem :
    (b : Bytes) (w : Wire)
    → b ≢ []
    → After
        (write_byte b w)
        (λ t. t.sent ≡ w.sent)
        (λ m t. (0 < m) × (m ≤ length b) × (t.sent ≡ w.sent ++ take m b))
write_byte_lem [] w h = absurd (h refl)
write_byte_lem (x ∷ b) w h = (omega arith, omega arith, refl)

pub read_byte_lem :
    (n : ℕ) (b : Bytes) (w : Wire)
    → w.incoming ≡ b
    → 0 < n
    → After
        (read_byte b w)
        (λ t. t.incoming ≡ w.incoming)
        (λ c t. (0 < length c) × (length c ≤ n) × (w.incoming ≡ c ++ t.incoming))
read_byte_lem n [] w h pos = refl
read_byte_lem n (x ∷ b) w h pos = (omega arith, omega arith, h)

pub read_line_lem :
    (d : ℕ) (o : Option Bytes) (w : Wire)
    → after d w.incoming ≡ o
    → After
        (read_line o w)
        (λ t. Unit)
        (λ b t. (after d b ≢ none) × (w.incoming ≡ b ++ t.incoming) × (t.sent ≡ w.sent))
read_line_lem d none w h = tt
read_line_lem d (some r) w h = ((λ e. ground arith), sym (append-nil w.incoming), refl)

pub read_exact_lem :
    (n : ℕ) (w : Wire)
    → After (wire.read n w) (λ t. Unit) (λ b t. (length b ≡ n) × (w.incoming ≡ b ++ t.incoming))
read_exact_lem n w = elim (Bool-cases (leb n (length w.incoming))) [
  | inl fits ↦
      rw (fits, After)
        (length-take n w.incoming (ground arith), sym (take-append-drop n w.incoming))
  | inr short ↦ rw (short, After) tt
]

unfoldable pub wire_laws : SocketLaws windows wire
wire_laws = record {
  sent = λ w. w.sent;
  incoming = λ w. w.incoming;
  write_some_lem = write_byte_lem;
  read_some_lem = λ n w pos. read_byte_lem n w.incoming w refl pos;
  write_lem = λ b w. (refl, refl, refl);
  read_lem = read_exact_lem;
  read_until_lem = λ d w. read_line_lem d (after d w.incoming) w refl;
  read_to_end_lem = λ w. (sym (append-nil w.incoming), (λ e. refl), refl);
  shutdown_lem = λ w. (refl, refl);
}
