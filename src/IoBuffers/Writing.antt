-- ===== src/IoBuffers/Writing.antt =====
-- asiolib/io_buffers.hpp: the rounds of `WriteToSocket`, over a socket that takes any part of a buffer.
use boost_asio_samples.Base.{
  ℕ, zero, suc, ◌+◌, ◌≤◌, ◌<◌, ◌≡◌, refl, ap, sym, ◌∙◌, ◌++◌, Bytes, length, take, drop, inl, inr,
  ◌==◌, Bool-cases, ==_iff, take-length, take-drop, length-drop, drop-ne-nil, append_assoc,
  append-nil, arith,
}
use boost_asio_samples.Errors.{ErrorCode, AsioError}
use boost_asio_samples.IoBuffers.Calls
use boost_asio_samples.IoBuffers.Calls.{
  Socket, SocketLaws, Outcome, done, threw, endless, Exception, system_error, runtime_error, After,
  Result, failed_with, returned,
}
use boost_asio_samples.IoBuffers.{write_rest, write_to_socket, write_failed}

module _ (asio : AsioError) (k : Socket) (law : SocketLaws asio k) where
  -- What a write of `b` may come to, where `before` was sent: everything is sent behind it, or an
  -- exception that `Thrown` allows leaves a part of it unsent.
  abbrev pub Written :
      (Thrown : Exception → Type 0) → Bytes → Bytes → Outcome k.State (Unit {0}) → Type 0
  Written Thrown before b (done u t) = law.sent t ≡ before ++ b
  Written Thrown before b (threw x t) =
      Thrown x × ((m : ℕ) × (m < length b) × (law.sent t ≡ before ++ take m b))
  Written Thrown before b endless = ⊥

  abbrev IsSystemError : Exception → Type 0
  IsSystemError x = (e : ErrorCode) × (x ≡ system_error e)

  -- The message of `WriteToSocket` for some error of Asio.
  abbrev pub IsWriteFailure : Exception → Type 0
  IsWriteFailure x = (e : ErrorCode) × (x ≡ runtime_error (write_failed k e))

  sent_step :
      (before b now : Bytes) (total m : ℕ)
      → now ≡ (before ++ take total b) ++ take m (drop total b)
      → now ≡ before ++ take (total + m) b
  sent_step before b now total m h =
      h
      ∙ append_assoc before (take total b) (take m (drop total b))
      ∙ ap (λ t. before ++ t) (take-drop total m b)

  -- One call of `write_some`, and the rounds `ih` behind it.
  write_round :
      (n total : ℕ) (before b : Bytes) (s : k.State) (r : Result k.State ℕ)
      → total < length b
      → law.sent s ≡ before ++ take total b
      → After r
          (λ t. law.sent t ≡ law.sent s)
          (λ m t.
            (0 < m)
            × (m ≤ length (drop total b))
            × (law.sent t ≡ law.sent s ++ take m (drop total b)))
      → ((m : ℕ) (t : k.State)
          → 0 < m
          → total + m ≤ length b
          → law.sent t ≡ before ++ take (total + m) b
          → Written IsSystemError before b (write_rest k n (total + m) b t))
      → Written IsSystemError before b (elim r [
        | failed_with e t ↦ threw (system_error e) t
        | returned m t ↦ write_rest k n (total + m) b t
      ])
  write_round n total before b s (failed_with e t) lt sent h ih = ((e, refl), (total, lt, h ∙ sent))
  write_round n total before b s (returned m t) lt sent (pos, le, more) ih =
      ih m t pos (omega (arith, length-drop total b))
        (sent_step before b (law.sent t) total m (more ∙ ap (λ p. p ++ take m (drop total b)) sent))

  write_rest-Written :
      (n total : ℕ) (before b : Bytes) (s : k.State)
      → total ≤ length b
      → length b < total + n
      → law.sent s ≡ before ++ take total b
      → Written IsSystemError before b (write_rest k n total b s)
  unfolding write_rest
  write_rest-Written zero total before b s le fuel sent = absurd (omega arith)
  write_rest-Written (suc n) total before b s le fuel sent = elim (Bool-cases (total == length b)) [
    | inl all ↦ rw all (
        sent
        ∙ ap (λ m. before ++ take m b) ((==_iff total (length b)).0 all)
        ∙ ap (λ t. before ++ t) (take-length b))
    | inr more ↦
        let lt : total < length b = ground arith in
        rw more (
          write_round n total before b s (k.write_some (drop total b) s) lt sent
            (law.write_some_lem (drop total b) s (drop-ne-nil total b lt))
            λ m t pos le' sent'.
              write_rest-Written n (total + m) before b t le' (omega arith) sent')
  ]

  rethrown :
      (before b : Bytes) (o : Outcome k.State (Unit {0}))
      → Written IsSystemError before b o
      → Written IsWriteFailure before b (elim o [
        | done a t ↦ done a t
        | threw x t ↦ threw (Calls.translate (write_failed k) x) t
        | endless ↦ endless
      ])
  rethrown before b (done a t) h = h
  rethrown before b endless h = elim h [ ]
  rethrown before b (threw x t) ((e, is), unsent) =
      ((e, ap (Calls.translate (write_failed k)) is), unsent)

  -- `WriteToSocket` ends, and what it comes to is one of two: it returns and the whole buffer was sent
  -- behind what was sent before, in order, whatever parts `write_some` took; or it throws its message
  -- for the error of a `write_some`, and a proper prefix of the buffer was sent.
  pub write_to_socket-Written :
      (b : Bytes) (s : k.State) → Written IsWriteFailure (law.sent s) b (write_to_socket k b s)
  unfolding write_to_socket
  write_to_socket-Written b s = rethrown (law.sent s) b (write_rest k (length b + 1) 0 b s) (
      write_rest-Written (length b + 1) 0 (law.sent s) b s (omega arith) (omega arith)
        (sym (append-nil (law.sent s))))
