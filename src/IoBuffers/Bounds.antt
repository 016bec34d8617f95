-- ===== src/IoBuffers/Bounds.antt =====
-- asiolib/io_buffers.hpp: the parts of a buffer that the loops of `WriteToSocket` and `ReadFromSocket`
-- hand to Asio, which a socket records that is otherwise the given one.
use boost_asio_samples.Base.{
  ℕ, zero, suc, ◌+◌, ◌-◌, ◌≤◌, ◌<◌, ◌≡◌, refl, List, [], ◌∷◌, ◌++◌, Bytes, length, take, drop, All,
  All-append, inl, inr, ◌==◌, Bool-cases, length-append, length-drop, drop-ne-nil, arith,
}
use boost_asio_samples.Errors.{ErrorCode, AsioError}
use boost_asio_samples.IoBuffers.Calls
use boost_asio_samples.IoBuffers.Calls.{
  Socket, SocketLaws, Outcome, done, threw, endless, Result, failed_with, returned, After,
  system_error,
}
use boost_asio_samples.IoBuffers.{
  write_rest, write_to_socket, write_failed, read_rest, read_from_socket, read_failed, spaces,
  store,
}

-- The buffers that were given to `write_some`, and the sizes that were given to `read_some`.
pub record Log : Type 0 where
  pub written : List Bytes
  pub asked : List ℕ

abbrev pub unused : Log
unused = record { written = []; asked = [] }

abbrev logged : {S A : Type 0} → Log → Result S A → Result (S × Log) A
logged g (failed_with e t) = failed_with e (t, g)
logged g (returned a t) = returned a (t, g)

abbrev pub watched : Socket → Socket
watched k = record {
  State = k.State × Log;
  write_some = λ b s. logged (record s.1 { written = s.1.written ++ b ∷ [] }) (k.write_some b s.0);
  read_some = λ n s. logged (record s.1 { asked = s.1.asked ++ n ∷ [] }) (k.read_some n s.0);
  write = λ b s. logged s.1 (k.write b s.0);
  read = λ n s. logged s.1 (k.read n s.0);
  read_until = λ d s. logged s.1 (k.read_until d s.0);
  read_to_end = λ s. let r = k.read_to_end s.0 in (r.0, (r.1, s.1));
  shutdown_send = λ s. logged s.1 (k.shutdown_send s.0);
  what = k.what;
}

module _ (asio : AsioError) (k : Socket) (law : SocketLaws asio k) where
  -- A part of `b` that is not empty and ends where `b` ends.
  abbrev pub IsRest : Bytes → Bytes → Type 0
  IsRest b c = (0 < length c) × ((n : ℕ) × (n < length b) × (c ≡ drop n b))

  -- What holds of the log, however a function ends, and that it ends.
  abbrev pub LogHas : {A : Type 0} → (Log → Type 0) → Outcome (k.State × Log) A → Type 0
  LogHas P (done a t) = P t.1
  LogHas P (threw x t) = P t.1
  LogHas P endless = ⊥

  LogHas-rethrow :
      {A : Type 0} (P : Log → Type 0) (msg : ErrorCode → Bytes) (o : Outcome (k.State × Log) A)
      → LogHas P o
      → LogHas P (elim o [
        | done a t ↦ done a t
        | threw x t ↦ threw (Calls.translate msg x) t
        | endless ↦ endless
      ])
  LogHas-rethrow P msg (done a t) h = h
  LogHas-rethrow P msg (threw x t) h = h
  LogHas-rethrow P msg endless h = h

  abbrev pub WroteRests : Bytes → Log → Type 0
  WroteRests b g = All (IsRest b) g.written × (length g.written ≤ length b)

  -- A size that leaves room before it, and no more than there is.
  abbrev pub Fits : ℕ → ℕ → Type 0
  Fits size n = (0 < n) × (n ≤ size)

  abbrev pub AskedFits : ℕ → Log → Type 0
  AskedFits size g = All (Fits size) g.asked × (length g.asked ≤ size)

  write_round :
      (n total : ℕ) (b : Bytes) (g : Log) (s : k.State) (r : Result k.State ℕ)
      → total < length b
      → All (IsRest b) g.written × (length g.written ≤ total + 1)
      → After r
          (λ t. law.sent t ≡ law.sent s)
          (λ m t.
            (0 < m)
            × (m ≤ length (drop total b))
            × (law.sent t ≡ law.sent s ++ take m (drop total b)))
      → ((m : ℕ) (t : k.State)
          → 0 < m
          → total + m ≤ length b
          → LogHas (WroteRests b) (write_rest (watched k) n (total + m) b (t, g)))
      → LogHas (WroteRests b) (elim (logged g r) [
        | failed_with e t ↦ threw (system_error e) t
        | returned m t ↦ write_rest (watched k) n (total + m) b t
      ])
  write_round n total b g s (failed_with e t) lt before h ih = (before.0, omega (arith, before.1))
  write_round n total b g s (returned m t) lt before h ih =
      ih m t h.0 (omega (arith, h.1, length-drop total b))

  write_rests :
      (n total : ℕ) (b : Bytes) (s : k.State) (g : Log)
      → total ≤ length b
      → length b < total + n
      → All (IsRest b) g.written × (length g.written ≤ total)
      → LogHas (WroteRests b) (write_rest (watched k) n total b (s, g))
  unfolding write_rest
  write_rests zero total b s g le fuel before = absurd (omega arith)
  write_rests (suc n) total b s g le fuel before = elim (Bool-cases (total == length b)) [
    | inl all ↦ rw all (before.0, omega (arith, before.1))
    | inr more ↦
        let lt : total < length b = ground arith in
        let rest : IsRest b (drop total b) =
          (omega (arith, length-drop total b), (total, lt, refl)) in
        let g' = record g { written = g.written ++ drop total b ∷ [] } in
        let all = All-append (IsRest b) g.written (drop total b ∷ []) before.0 (rest, tt) in
        let calls : length g'.written ≤ total + 1 =
          omega (arith, before.1, length-append g.written (drop total b ∷ [])) in
        rw more (
          write_round n total b g' s (k.write_some (drop total b) s) lt (all, calls)
            (law.write_some_lem (drop total b) s (drop-ne-nil total b lt))
            λ m t pos le'. write_rests n (total + m) b t g' le' (omega arith) (all, omega arith))
  ]

  read_round :
      (n size total : ℕ) (buffer : Bytes) (g : Log) (s : k.State) (r : Result k.State Bytes)
      → total < size
      → All (Fits size) g.asked × (length g.asked ≤ total + 1)
      → After r
          (λ t. law.incoming t ≡ law.incoming s)
          (λ b t.
            (0 < length b) × (length b ≤ size - total) × (law.incoming s ≡ b ++ law.incoming t))
      → ((b : Bytes) (t : k.State)
          → 0 < length b
          → total + length b ≤ size
          → LogHas
              (AskedFits size)
              (read_rest (watched k) n size (total + length b) (store buffer total b) (t, g)))
      → LogHas (AskedFits size) (elim (logged g r) [
        | failed_with e t ↦ threw (system_error e) t
        | returned b t ↦ read_rest (watched k) n size (total + length b) (store buffer total b) t
      ])
  read_round n size total buffer g s (failed_with e t) lt before h ih =
      (before.0, omega (arith, before.1))
  read_round n size total buffer g s (returned b t) lt before h ih = ih b t h.0 (omega (arith, h.1))

  read_sizes :
      (n size total : ℕ) (buffer : Bytes) (s : k.State) (g : Log)
      → total ≤ size
      → size < total + n
      → All (Fits size) g.asked × (length g.asked ≤ total)
      → LogHas (AskedFits size) (read_rest (watched k) n size total buffer (s, g))
  unfolding read_rest
  read_sizes zero size total buffer s g le fuel before = absurd (omega arith)
  read_sizes (suc n) size total buffer s g le fuel before = elim (Bool-cases (total == size)) [
    | inl all ↦ rw all (before.0, omega (arith, before.1))
    | inr more ↦
        let lt : total < size = ground arith in
        let g' = record g { asked = g.asked ++ (size - total) ∷ [] } in
        let all =
          All-append (Fits size) g.asked ((size - total) ∷ []) before.0
            ((omega arith, omega arith), tt) in
        let calls : length g'.asked ≤ total + 1 =
          omega (arith, before.1, length-append g.asked ((size - total) ∷ [])) in
        rw more (
          read_round n size total buffer g' s (k.read_some (size - total) s) lt (all, calls)
            (law.read_some_lem (size - total) s (omega arith))
            λ b t pos le'.
              read_sizes n size (total + length b) (store buffer total b) t g' le' (omega arith)
                (all, omega arith))
  ]

  -- What the two loops hand to Asio: `WriteToSocket` gives each `write_some` a rest of its buffer that is
  -- not empty, and `ReadFromSocket` gives each `read_some` at least one byte of room and no more than its buffer
  -- has; neither makes more calls than its buffer has bytes, also where a call fails.
  pub loops_in_bounds :
      (b : Bytes) (size : ℕ) (s : k.State)
      → LogHas (WroteRests b) (write_to_socket (watched k) b (s, unused))
        × LogHas (AskedFits size) (read_from_socket (watched k) size (s, unused))
  unfolding write_to_socket read_from_socket
  loops_in_bounds b size s = (
    LogHas-rethrow (WroteRests b) (write_failed k)
        (write_rest (watched k) (length b + 1) 0 b (s, unused))
        (write_rests (length b + 1) 0 b s unused (omega arith) (omega arith) (tt, omega arith)),
    LogHas-rethrow (AskedFits size) (read_failed k)
        (read_rest (watched k) (size + 1) size 0 (spaces size) (s, unused))
        (read_sizes (size + 1) size 0 (spaces size) s unused (omega arith) (omega arith)
          (tt, omega arith)),
  )
