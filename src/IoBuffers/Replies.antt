-- ===== src/IoBuffers/Replies.antt =====
-- asiolib/io_buffers.hpp: the reads by a delimiter and in one call, and one request with its reply.
use boost_asio_samples.Base.{
  ℕ, ◌+◌, ◌≡◌, refl, ap, sym, ◌∙◌, ◌++◌, [], ◌∷◌, Bytes, Without, length, drop, drop-length,
  append-nil, after, before, before-Without, before-after, Option-cases, inl, inr, Bool-cases, true,
  append_assoc, arith,
}
use mathlib.Core.Path.{subst}
use boost_asio_samples.Stream.Reads.{getline-before}
use boost_asio_samples.Errors.{ErrorCode, error_code_eq, error_code_eq-path, AsioError}
use boost_asio_samples.IoBuffers.Calls.{
  Result-cases, Socket, SocketLaws, Outcome, done, threw, endless, system_error,
}
use boost_asio_samples.IoBuffers.Reading.{
  HasRead, IsReadFailure, read_from_socket-HasRead, length-spaces,
}
use boost_asio_samples.IoBuffers.{
  read_from_socket, read_from_socket_in_single_call, read_from_socket_by_delimiter, read_to_eof,
  send_request_and_get_replay, get_request_and_send_replay, store, spaces, first_line,
}

append-injective : (a b x y : Bytes) → length a ≡ length b → a ++ x ≡ b ++ y → (a ≡ b) × (x ≡ y)
append-injective [] [] x y l h = (refl, h)
append-injective [] (c ∷ b) x y l h = absurd (omega arith)
append-injective (c ∷ a) [] x y l h = absurd (omega arith)
append-injective (c ∷ a) (d ∷ b) x y l h = ground (arith, append-injective a b x y)

-- A buffer that is filled at once keeps nothing of its padding.
store_all : (size : ℕ) (b : Bytes) → length b ≡ size → store (spaces size) 0 b ≡ b
store_all size b h =
    ap (λ n. b ++ drop n (spaces size))
      (let e : 0 + length b ≡ length (spaces size) = omega (arith, length-spaces size) in e)
    ∙ ap (λ t. b ++ t) (drop-length (spaces size))
    ∙ append-nil b

module _ (asio : AsioError) (k : Socket) (law : SocketLaws asio k) where
  -- What a read up to the delimiter `d` may come to.
  abbrev pub HasLine : ℕ → Bytes → Outcome k.State Bytes → Type 0
  HasLine d stream (done text t) =
      Without d text × ((lost : Bytes) × (stream ≡ text ++ d ∷ (lost ++ law.incoming t)))
  HasLine d stream (threw x t) = IsReadFailure asio k law x
  HasLine d stream endless = ⊥

  -- `ReadFromSocketByDelimiter` returns what the stream holds before the first delimiter, or throws its
  -- message; what Asio had read behind the delimiter is lost, and not left for the next read.
  pub read_by_delimiter-HasLine :
      (d : ℕ) (s : k.State) → HasLine d (law.incoming s) (read_from_socket_by_delimiter k d s)
  unfolding read_from_socket_by_delimiter
  read_by_delimiter-HasLine d s = elim (Result-cases (k.read_until d s)) [
    | inl (e, t, h) ↦ rw (h, HasLine) (e, refl)
    | inr (b, t, h) ↦
        let fact = rw h at (law.read_until_lem d s) in
        elim (Option-cases (after d b)) [
          | inl none' ↦ absurd (fact.0 none')
          | inr (r, found) ↦
              rw (h, HasLine, getline-before d [] b)
                (
                  before-Without d b,
                  (
                    r,
                    fact.1
                        ∙ ap (λ p. p ++ law.incoming t) (before-after d b r found)
                        ∙ append_assoc (before d b) (d ∷ r) (law.incoming t),
                  ),
                )
        ]
  ]

  -- What a read in one call may come to.
  abbrev pub HasReadAtOnce : ℕ → Bytes → Outcome k.State Bytes → Type 0
  HasReadAtOnce size stream (done b t) = (length b ≡ size) × (stream ≡ b ++ law.incoming t)
  HasReadAtOnce size stream (threw x t) = IsReadFailure asio k law x
  HasReadAtOnce size stream endless = ⊥

  read_at_once :
      (size : ℕ) (s : k.State)
      → HasReadAtOnce size (law.incoming s) (read_from_socket_in_single_call k size s)
  unfolding read_from_socket_in_single_call
  read_at_once size s = elim (Result-cases (k.read size s)) [
    | inl (e, t, h) ↦ rw (h, HasReadAtOnce) (e, refl)
    | inr (b, t, h) ↦
        let fact = rw h at (law.read_lem size s) in
        rw (h, HasReadAtOnce, store_all size b fact.0) fact
  ]

  -- The two ways to read a buffer agree: where both return from one state of the socket, they return
  -- the same bytes and leave the same bytes unread.
  pub read_ways_agree :
      (size : ℕ) (s t t' : k.State) (b b' : Bytes)
      → read_from_socket k size s ≡ done b t
      → read_from_socket_in_single_call k size s ≡ done b' t'
      → (b ≡ b') × (law.incoming t ≡ law.incoming t')
  read_ways_agree size s t t' b b' one other =
      let x =
        subst (HasRead asio k law (IsReadFailure asio k law) size (law.incoming s)) one
          (read_from_socket-HasRead asio k law size s) in
      let y = subst (HasReadAtOnce size (law.incoming s)) other (read_at_once size s) in
      append-injective b b' (law.incoming t) (law.incoming t') (x.0 ∙ sym y.0) (sym x.1 ∙ y.1)

  -- What `SendRequestAndGetReplay` may come to from the state `s`.
  abbrev pub Replied : k.State → Bytes → Outcome k.State Bytes → Type 0
  Replied s request (done text t) =
      (law.sent t ≡ law.sent s ++ request)
      × (text ≡ before b'\n' (law.incoming s))
      × (law.incoming t ≡ [])
  Replied s request (threw x t) = (e : ErrorCode) × (x ≡ system_error e)
  Replied s request endless = ⊥

  -- A read that ends with the end of the stream has read all of it.
  whole_stream :
      (u : k.State)
      → let r = k.read_to_end u in
        error_code_eq r.0.0 asio.eof ≡ true
        → (r.0.1 ≡ law.incoming u) × (law.incoming r.1 ≡ []) × (law.sent r.1 ≡ law.sent u)
  whole_stream u ended =
      let r = k.read_to_end u in
      let fact = law.read_to_end_lem u in
      let nothing = fact.1 (error_code_eq-path r.0.0 asio.eof ended) in
      (sym (append-nil r.0.1) ∙ ap (λ t. r.0.1 ++ t) (sym nothing) ∙ sym fact.0, nothing, fact.2)

  read_to_eof-Replied :
      (s u : k.State) (request : Bytes)
      → law.sent u ≡ law.sent s ++ request
      → law.incoming u ≡ law.incoming s
      → Replied s request (elim (read_to_eof asio k u) [
        | done a t ↦ done (first_line asio k a) t
        | threw x t ↦ threw x t
        | endless ↦ endless
      ])
  unfolding read_to_eof
  read_to_eof-Replied s u request sent same =
      let r = k.read_to_end u in
      elim (Bool-cases (error_code_eq r.0.0 asio.eof)) [
        | inl ended ↦
            let whole = whole_stream u ended in
            rw (ended, getline-before b'\n' [] r.0.1)
              (whole.2 ∙ sent, ap (before b'\n') (whole.0 ∙ same), whole.1)
        | inr other ↦ rw other (r.0.0, refl)
      ]

  -- `SendRequestAndGetReplay` sends the whole request and returns the first line of all that the peer
  -- sends before it closes, or throws an error of Asio; it returns nothing that is cut off.
  pub send_request-Replied :
      (request : Bytes) (s : k.State)
      → Replied s request (send_request_and_get_replay asio k request s)
  unfolding send_request_and_get_replay
  send_request-Replied request s = elim (Result-cases (k.write request s)) [
    | inl (e, t, h) ↦ rw (h, Replied) (e, refl)
    | inr (m, t, h) ↦
        let wrote = rw h at (law.write_lem request s) in
        elim (Result-cases (k.shutdown_send t)) [
          | inl (e, u, h') ↦ rw (h, h', Replied) (e, refl)
          | inr (a, u, h') ↦
              let closed = rw h' at (law.shutdown_lem t) in
              rw (h, h', Replied)
                (read_to_eof-Replied s u request (closed.0 ∙ wrote.1) (closed.1 ∙ wrote.2))
        ]
  ]

  -- `GetRequestAndSendReplay` reads all that the peer sends before it closes, answers by the whole
  -- reply and returns the first line of the request, or throws an error of Asio.
  pub get_request-Replied :
      (reply : Bytes) (s : k.State) → Replied s reply (get_request_and_send_replay asio k reply s)
  unfolding get_request_and_send_replay read_to_eof
  get_request-Replied reply s =
      let r = k.read_to_end s in
      elim (Bool-cases (error_code_eq r.0.0 asio.eof)) [
        | inr other ↦ rw (other, Replied) (r.0.0, refl)
        | inl ended ↦ elim (Result-cases (k.write reply r.1)) [
          | inl (e, t, h) ↦ rw (ended, h, Replied) (e, refl)
          | inr (m, t, h) ↦ elim (Result-cases (k.shutdown_send t)) [
            | inl (e, u, h') ↦ rw (ended, h, h', Replied) (e, refl)
            | inr (a, u, h') ↦
                let whole = whole_stream s ended in
                let wrote = rw h at (law.write_lem reply r.1) in
                let closed = rw h' at (law.shutdown_lem t) in
                rw (ended, h, h', Replied, getline-before b'\n' [] r.0.1)
                  (
                    closed.0 ∙ wrote.1 ∙ ap (λ p. p ++ reply) whole.2,
                    ap (before b'\n') whole.0,
                    closed.1 ∙ wrote.2 ∙ whole.1,
                  )
          ]
        ]
      ]
