-- ===== src/SyncTcp/Exchange.antt =====
-- asiolib/tcp-client-sync.hpp against `ServiceFake` of asiolib/tcp-server-sync.hpp, over a connection
-- that keeps the order of its bytes.
use boost_asio_samples.Base.{
  ℕ, ◌≡◌, refl, ap, sym, ◌∙◌, ◌++◌, [], ◌∷◌, Bytes, codes, Without, Without-append, free-Without,
  before, before-append, before-append_found, inl, inr, append_assoc,
}
use mathlib.Core.Path.{subst}
use boost_asio_samples.Decimal.{to_string}
use boost_asio_samples.Decimal.RoundTrip.{to_string-Without}
use boost_asio_samples.Stream.{open_stream, getline}
use boost_asio_samples.Stream.Reads.{getline-before}
use boost_asio_samples.Errors.{ErrorCode, AsioError}
use boost_asio_samples.IoBuffers.Calls.{
  Socket, SocketLaws, Outcome, done, threw, endless, Exception, system_error, returned,
  Result-cases,
}
use boost_asio_samples.SyncTcp.{
  request_line, request_bytes, answer, send_request, receive_response, emulate_long_comp_op,
  handle_request,
}

abbrev pub IsSystemError : Exception → Type 0
IsSystemError x = (e : ErrorCode) × (x ≡ system_error e)

module _ (asio : AsioError) (k : Socket) (law : SocketLaws asio k) where
  -- A function that reads a line from the state `s` and sends `bytes` of it; it gives back `text`, if it
  -- gives a line back.
  abbrev pub Exchanged : {A : Type 0} → (A → Type 0) → Bytes → k.State → Outcome k.State A → Type 0
  Exchanged P bytes s (done a t) = P a × (law.sent t ≡ law.sent s ++ bytes)
  Exchanged P bytes s (threw x t) = IsSystemError x
  Exchanged P bytes s endless = ⊥

  -- The line of what `read_until` brought is the first line of the stream.
  line_read :
      (b : Bytes) (s t : k.State)
      → k.read_until b'\n' s ≡ returned b t
      → ((getline b'\n' [] (open_stream b)).0 ≡ before b'\n' (law.incoming s))
        × (law.sent t ≡ law.sent s)
  line_read b s t h =
      let fact = rw h at (law.read_until_lem b'\n' s) in
      (
        getline-before b'\n' [] b
            ∙ sym (before-append_found b'\n' b (law.incoming t) fact.0)
            ∙ ap (before b'\n') (sym fact.1),
        fact.2,
      )

  -- The client sends its request and gives back the first line of what the peer sends, or throws an
  -- error of Asio.
  pub emulate_long_comp_op-Exchanged :
      (duration_sec : ℕ) (s : k.State)
      → Exchanged
          (λ text. text ≡ before b'\n' (law.incoming s))
          (request_bytes duration_sec)
          s
          (emulate_long_comp_op k duration_sec s)
  unfolding emulate_long_comp_op send_request receive_response
  emulate_long_comp_op-Exchanged duration_sec s =
      elim (Result-cases (k.write (request_bytes duration_sec) s)) [
        | inl (e, t, h) ↦ rw (h, Exchanged) (e, refl)
        | inr (m, t, h) ↦ elim (Result-cases (k.read_until b'\n' t)) [
          | inl (e, u, h') ↦ rw (h, h', Exchanged) (e, refl)
          | inr (b, u, h') ↦
              let wrote = rw h at (law.write_lem (request_bytes duration_sec) s) in
              let line = line_read b t u h' in
              rw (h, h', Exchanged) (line.0 ∙ ap (before b'\n') wrote.2, line.1 ∙ wrote.1)
        ]
      ]

  -- The service answers the first line of what the client sends, or throws an error of Asio.
  pub handle_request-Exchanged :
      (task : Bytes) (s : k.State)
      → Exchanged
          (λ m. Unit)
          (answer task (before b'\n' (law.incoming s)))
          s
          (handle_request k task s)
  unfolding handle_request
  handle_request-Exchanged task s = elim (Result-cases (k.read_until b'\n' s)) [
    | inl (e, t, h) ↦ rw (h, Exchanged) (e, refl)
    | inr (b, t, h) ↦
        let line = line_read b s t h in
        let text = answer task (getline b'\n' [] (open_stream b)).0 in
        elim (Result-cases (k.write text t)) [
          | inl (e, u, h') ↦ rw (h, h', Exchanged) (e, refl)
          | inr (m, u, h') ↦
              let wrote = rw h' at (law.write_lem text t) in
              rw (h, h', Exchanged)
                (
                  tt,
                  wrote.1
                      ∙ ap (λ p. p ++ text) line.1
                      ∙ ap (λ l. law.sent s ++ answer task l) line.0,
                )
        ]
  ]

request_line-Without : (duration_sec : ℕ) → Without b'\n' (request_line duration_sec)
request_line-Without duration_sec =
    Without-append b'\n' (codes "EMULATE_LONG_COMP_OP ") (to_string duration_sec)
      (free-Without b'\n' (codes "EMULATE_LONG_COMP_OP ") refl)
      (to_string-Without b'\n' duration_sec refl)

-- A line that stands first in what a peer has sent on a new connection is the line that is read.
first_sent :
    (line sent stream more : Bytes)
    → Without b'\n' line
    → sent ≡ line ++ b'\n' ∷ []
    → stream ≡ sent ++ more
    → before b'\n' stream ≡ line
first_sent line sent stream more plain is starts =
    ap (before b'\n') (starts ∙ ap (λ t. t ++ more) is ∙ append_assoc line (b'\n' ∷ []) more)
    ∙ before-append b'\n' line more plain

module _ (asio : AsioError) (client server : Socket) (sent_by : SocketLaws asio client)
    (served_by : SocketLaws asio server) where
  -- On a new connection, where the service reads what the client sends and the client what the service
  -- sends: if neither meets an error, the client is given its own request behind the text of the
  -- service, which holds no line end.
  pub sync_exchange :
      (duration_sec m : ℕ) (task text more rest : Bytes) (s s' : client.State) (u u' : server.State)
      → Without b'\n' task
      → sent_by.sent s ≡ []
      → served_by.sent u ≡ []
      → emulate_long_comp_op client duration_sec s ≡ done text s'
      → handle_request server task u ≡ done m u'
      → served_by.incoming u ≡ sent_by.sent s' ++ more
      → sent_by.incoming s ≡ served_by.sent u' ++ rest
      → text ≡ task ++ request_line duration_sec
  sync_exchange duration_sec m task text more rest s s' u u' plain new_client new_server asked
        handled there back =
      let line = request_line duration_sec in
      let c =
        subst
          (Exchanged asio client sent_by (λ t. t ≡ before b'\n' (sent_by.incoming s))
            (request_bytes duration_sec) s)
          asked (emulate_long_comp_op-Exchanged asio client sent_by duration_sec s) in
      let w =
        subst
          (Exchanged asio server served_by (λ n. Unit)
            (answer task (before b'\n' (served_by.incoming u))) u)
          handled (handle_request-Exchanged asio server served_by task u) in
      let got : before b'\n' (served_by.incoming u) ≡ line =
        first_sent line (sent_by.sent s') (served_by.incoming u) more
          (request_line-Without duration_sec)
          (c.1 ∙ ap (λ p. p ++ request_bytes duration_sec) new_client) there in
      c.0
      ∙ first_sent (task ++ line) (served_by.sent u') (sent_by.incoming s) rest
          (Without-append b'\n' task line plain (request_line-Without duration_sec))
          (w.1
            ∙ ap (λ p. p ++ answer task (before b'\n' (served_by.incoming u))) new_server
            ∙ ap (answer task) got
            ∙ sym (append_assoc task line (b'\n' ∷ [])))
          back
