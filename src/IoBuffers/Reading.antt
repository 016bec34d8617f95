-- ===== src/IoBuffers/Reading.antt =====
-- asiolib/io_buffers.hpp: the rounds of `ReadFromSocket`, over a socket that cuts the stream anywhere.
use boost_asio_samples.Base.{
  ℕ, zero, suc, ◌+◌, ◌-◌, ◌≤◌, ◌<◌, ◌≡◌, refl, ap, sym, ◌∙◌, ◌++◌, [], ◌∷◌, Bytes, false, length,
  drop, ◌==◌, ==_iff, take-length-append, drop-add-append, length-append, length-drop, append_assoc,
  append-nil, arith,
}
use boost_asio_samples.Errors.{ErrorCode, AsioError}
use boost_asio_samples.IoBuffers.Calls
use boost_asio_samples.IoBuffers.Calls.{
  Socket, SocketLaws, Outcome, done, threw, endless, Exception, system_error, runtime_error, After,
  Result, failed_with, returned,
}
use boost_asio_samples.IoBuffers.{read_rest, read_from_socket, read_failed, store, spaces}

-- Storing behind `got` in a buffer of `got` and room for the bytes.
store-append :
    (got b pad : Bytes) → store (got ++ pad) (length got) b ≡ (got ++ b) ++ drop (length b) pad
store-append got b pad =
    rw (take-length-append got pad, drop-add-append got (length b) pad)
      (sym (append_assoc got b (drop (length b) pad)))

pub length-spaces : (n : ℕ) → length (spaces n) ≡ n
length-spaces zero = refl
length-spaces (suc n) = ap suc (length-spaces n)

module _ (asio : AsioError) (k : Socket) (law : SocketLaws asio k) where
  -- What a read of `size` bytes from the stream `stream` may come to: exactly the next `size` bytes, or
  -- an exception that `Thrown` allows, fewer bytes having been taken.
  abbrev pub HasRead : (Thrown : Exception → Type 0) → ℕ → Bytes → Outcome k.State Bytes → Type 0
  HasRead Thrown size stream (done b t) = (length b ≡ size) × (stream ≡ b ++ law.incoming t)
  HasRead Thrown size stream (threw x t) =
      Thrown x × ((b : Bytes) × (length b < size) × (stream ≡ b ++ law.incoming t))
  HasRead Thrown size stream endless = ⊥

  abbrev IsSystemError : Exception → Type 0
  IsSystemError x = (e : ErrorCode) × (x ≡ system_error e)

  -- The message of `ReadFromSocket` for some error of Asio.
  abbrev pub IsReadFailure : Exception → Type 0
  IsReadFailure x = (e : ErrorCode) × (x ≡ runtime_error (read_failed k e))

  read_round :
      (n size : ℕ) (stream got pad : Bytes) (s : k.State) (r : Result k.State Bytes)
      → length got < size
      → length got + length pad ≡ size
      → stream ≡ got ++ law.incoming s
      → After r
          (λ t. law.incoming t ≡ law.incoming s)
          (λ b t.
            (0 < length b)
            × (length b ≤ size - length got)
            × (law.incoming s ≡ b ++ law.incoming t))
      → ((got' pad' : Bytes) (t : k.State)
          → length got < length got'
          → length got' + length pad' ≡ size
          → stream ≡ got' ++ law.incoming t
          → HasRead IsSystemError size stream (read_rest k n size (length got') (got' ++ pad') t))
      → HasRead IsSystemError size stream (elim r [
        | failed_with e t ↦ threw (system_error e) t
        | returned b t ↦
            read_rest k n size (length got + length b) (store (got ++ pad) (length got) b) t
      ])
  read_round n size stream got pad s (failed_with e t) lt room sofar h ih =
      ((e, refl), (got, lt, sofar ∙ ap (λ p. got ++ p) (sym h)))
  read_round n size stream got pad s (returned b t) lt room sofar (pos, le, more) ih =
      rw (store-append got b pad, ← length-append got b)
        (ih (got ++ b) (drop (length b) pad) t (omega (arith, length-append got b))
          (omega (arith, length-append got b, length-drop (length b) pad))
          (sofar ∙ ap (λ p. got ++ p) more ∙ sym (append_assoc got b (law.incoming t))))

  read_rest-HasRead :
      (n size : ℕ) (stream got pad : Bytes) (s : k.State)
      → length got + length pad ≡ size
      → size < length got + n
      → stream ≡ got ++ law.incoming s
      → HasRead IsSystemError size stream (read_rest k n size (length got) (got ++ pad) s)
  unfolding read_rest
  read_rest-HasRead zero size stream got pad s room fuel sofar = absurd (omega arith)
  read_rest-HasRead (suc n) size stream got [] s room fuel sofar =
      let full : length got ≡ size = omega arith in
      rw ((==_iff (length got) size).1 full, append-nil) (full, sofar)
  read_rest-HasRead (suc n) size stream got (x ∷ pad) s room fuel sofar =
      let lt : length got < size = omega arith in
      let more : (length got == size) ≡ false = ground arith in
      rw more (
        read_round n size stream got (x ∷ pad) s (k.read_some (size - length got) s) lt room sofar
          (law.read_some_lem (size - length got) s (omega arith))
          λ got' pad' t lt' room' sofar'.
            read_rest-HasRead n size stream got' pad' t room' (omega arith) sofar')

  rethrown :
      (size : ℕ) (stream : Bytes) (o : Outcome k.State Bytes)
      → HasRead IsSystemError size stream o
      → HasRead IsReadFailure size stream (elim o [
        | done a t ↦ done a t
        | threw x t ↦ threw (Calls.translate (read_failed k) x) t
        | endless ↦ endless
      ])
  rethrown size stream (done a t) h = h
  rethrown size stream endless h = elim h [ ]
  rethrown size stream (threw x t) ((e, is), taken) =
      ((e, ap (Calls.translate (read_failed k)) is), taken)

  -- `ReadFromSocket` ends, and what it comes to is one of two: it returns exactly the next bytes of
  -- the stream, as many as the buffer has, with no padding left in them, whatever parts `read_some`
  -- brought; or it throws its message for the error of a `read_some`, with fewer bytes taken.
  pub read_from_socket-HasRead :
      (size : ℕ) (s : k.State)
      → HasRead IsReadFailure size (law.incoming s) (read_from_socket k size s)
  unfolding read_from_socket
  read_from_socket-HasRead size s =
      rethrown size (law.incoming s) (read_rest k (size + 1) size 0 (spaces size) s) (
        read_rest-HasRead (size + 1) size (law.incoming s) [] (spaces size) s
          (omega (arith, length-spaces size)) (omega arith) refl)
