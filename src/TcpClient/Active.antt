-- ===== src/TcpClient/Active.antt =====
-- asiolib/tcp-client-async.hpp: what a request comes to, and what the map of active sessions says of it.
use boost_asio_samples.Base.{ℕ, ◌≡◌, refl, ap, sym, ◌∙◌, [], ◌∷◌, ◌++◌, Bytes, none, false, Without}
use mathlib.Core.Path.{subst}
use boost_asio_samples.Errors.{AsioError, success}
use boost_asio_samples.Dict.{nat_eq, lookup}
use boost_asio_samples.Stream.{IStream, open_stream, getline}
use boost_asio_samples.Stream.Reads.{getline-append}
use boost_asio_samples.TcpClient.Sessions.{
  AsyncTcpClient, Session, connect, write, read_until, new_session, put, start,
}
use boost_asio_samples.TcpClient.{
  emulate_long_computation_op, request_text, on_request_complete, on_connected, on_written,
  on_response,
}
use boost_asio_samples.TcpClient.Reuse.{self_eq, complete_forgets}
use boost_asio_samples.TcpClient.Steps.{handle}

module _ (asio : AsioError) where
  pub going_on :
      (a : ℕ) (c : AsyncTcpClient)
      → (c.sessions a).was_cancelled ≡ false
      → (on_connected asio success a c ≡ start (write a) c)
        × (on_written asio success a c ≡ start (read_until a) c)
  unfolding on_connected on_written
  going_on a c h = (rw h refl, rw h refl)

  answer_call :
      (a : ℕ) (line : Bytes) (s : Session) (c : AsyncTcpClient)
      → c.sessions a ≡ s
      → s.ec ≡ success
      → s.was_cancelled ≡ false
      → s.response ≡ line
      → (on_request_complete asio a c).calls
        ≡ c.calls
          ++ record {
            session = a;
            callback = s.callback;
            request_id = s.id;
            response = line;
            ec = success;
          }
            ∷ []
  unfolding on_request_complete
  answer_call a line s c is ok live text = rw (is, ok, live, text) refl

  complete_pending :
      (a : ℕ) (c : AsyncTcpClient) → (on_request_complete asio a c).pending ≡ c.pending
  unfolding on_request_complete
  complete_pending a c = refl

  -- The last handler of a session that meets no error.
  response_call :
      (a : ℕ) (line more : Bytes) (c : AsyncTcpClient)
      → (c.sessions a).ec ≡ success
      → (c.sessions a).was_cancelled ≡ false
      → (c.sessions a).response_buf ≡ []
      → Without b'\n' line
      → let d = on_response asio success (line ++ b'\n' ∷ more) a c in
        let s = c.sessions a in
        (d.pending ≡ c.pending)
        × (d.calls
            ≡ c.calls
              ++ record {
                session = a;
                callback = s.callback;
                request_id = s.id;
                response = line;
                ec = success;
              }
                ∷ [])
        × (lookup s.id d.active ≡ none)
  unfolding on_response
  response_call a line more c ok live empty plain =
      let s = c.sessions a in
      let read =
        getline b'\n' s.response (open_stream (s.response_buf ++ (line ++ b'\n' ∷ more))) in
      let v = record s { response = read.0; response_buf = read.1.rest } in
      let text : read ≡ (line, open_stream more) =
        ap (λ b. getline b'\n' s.response (open_stream (b ++ (line ++ b'\n' ∷ more)))) empty
        ∙ getline-append b'\n' s.response line more plain in
      let stored : (put a v c).sessions a ≡ v = rw (self_eq a) refl in
      (
        complete_pending a (put a v c),
        answer_call a line v (put a v c) stored ok live (ap (λ (p : Bytes × IStream). p.0) text),
        subst (λ (t : Session). lookup t.id (on_request_complete asio a (put a v c)).active ≡ none)
            stored (complete_forgets asio a (put a v c)),
      )

  -- A new request, in the store.
  pub begin_stored :
      (duration : ℕ) (ip : Bytes) (port callback id : ℕ) (c : AsyncTcpClient)
      → (emulate_long_computation_op none duration ip port callback id c).sessions c.next
        ≡ new_session ip port (request_text duration) id callback
  unfolding emulate_long_computation_op start
  begin_stored duration ip port callback id c = rw (self_eq c.next) refl

  begin_pending :
      (duration : ℕ) (ip : Bytes) (port callback id : ℕ) (c : AsyncTcpClient)
      → let d = emulate_long_computation_op none duration ip port callback id c in
        (d.pending ≡ c.pending ++ connect c.next ∷ []) × (d.calls ≡ c.calls)
  unfolding emulate_long_computation_op start
  begin_pending duration ip port callback id c = (refl, refl)

  -- How the session `a` goes on, over the states before and after its three handlers.
  abbrev pub Answered : (a callback id : ℕ) (line : Bytes) (c c₁ c₂ c₃ c₄ : AsyncTcpClient) → Type 0
  Answered a callback id line c c₁ c₂ c₃ c₄ =
      (c₁.pending ≡ connect a ∷ [])
      × (c₂.pending ≡ write a ∷ [])
      × (c₃.pending ≡ read_until a ∷ [])
      × (c₄.pending ≡ [])
      × (c₄.calls
          ≡ c.calls
            ++ record {
              session = a;
              callback = callback;
              request_id = id;
              response = line;
              ec = success;
            }
              ∷ [])
      × (lookup id c₄.active ≡ none)

  read-Answered :
      (duration : ℕ) (ip : Bytes) (port callback id : ℕ) (line more : Bytes) (c : AsyncTcpClient)
      → c.pending ≡ []
      → Without b'\n' line
      → let a = c.next in
        let c₁ = emulate_long_computation_op none duration ip port callback id c in
        let d = record c₁ { pending = [] } in
        Answered a callback id line c c₁
          (start (write a) d)
          (start (read_until a) d)
          (on_response asio success (line ++ b'\n' ∷ more) a d)
  unfolding start
  read-Answered duration ip port callback id line more c idle plain =
      let a = c.next in
      let c₁ = emulate_long_computation_op none duration ip port callback id c in
      let d = record c₁ { pending = [] } in
      let c₄ = on_response asio success (line ++ b'\n' ∷ more) a d in
      let stored = begin_stored duration ip port callback id c in
      let begun = begin_pending duration ip port callback id c in
      let r =
        response_call a line more d (ap (λ (s : Session). s.ec) stored)
          (ap (λ (s : Session). s.was_cancelled) stored)
          (ap (λ (s : Session). s.response_buf) stored) plain in
      (
        begun.0 ∙ ap (λ ops. ops ++ connect a ∷ []) idle,
        refl,
        refl,
        r.0,
        subst
            (λ cs.
              c₄.calls
              ≡ cs
                ++ record {
                  session = a;
                  callback = callback;
                  request_id = id;
                  response = line;
                  ec = success;
                }
                  ∷ [])
            begun.1
            (subst
              (λ (s : Session).
                c₄.calls
                ≡ d.calls
                  ++ record {
                    session = a;
                    callback = s.callback;
                    request_id = s.id;
                    response = line;
                    ec = success;
                  }
                    ∷ [])
              stored r.1),
        subst (λ (s : Session). lookup s.id c₄.active ≡ none) stored r.2,
      )

  -- A request that is begun when no other waits, is not cancelled and meets no error, and is sent a line
  -- and possibly more: its callback is called once, with that line and no error, and its number is
  -- free again.
  pub answered :
      (duration : ℕ) (ip : Bytes) (port callback id : ℕ) (line more : Bytes) (c : AsyncTcpClient)
      → c.pending ≡ []
      → Without b'\n' line
      → let a = c.next in
        let c₁ = emulate_long_computation_op none duration ip port callback id c in
        let c₂ = handle asio (connect a) success [] (record c₁ { pending = [] }) in
        let c₃ = handle asio (write a) success [] (record c₂ { pending = [] }) in
        let c₄ =
          handle asio (read_until a) success (line ++ b'\n' ∷ more) (record c₃ { pending = [] }) in
        Answered a callback id line c c₁ c₂ c₃ c₄
  unfolding handle start
  answered duration ip port callback id line more c idle plain =
      let a = c.next in
      let c₁ = emulate_long_computation_op none duration ip port callback id c in
      let d = record c₁ { pending = [] } in
      let steps =
        going_on a d
          (ap (λ (s : Session). s.was_cancelled) (begin_stored duration ip port callback id c)) in
      let reply = line ++ b'\n' ∷ more in
      subst
        (λ t.
          let u = on_written asio success a (record t { pending = [] }) in
          Answered a callback id line c c₁ t u
            (on_response asio success reply a (record u { pending = [] })))
        (sym steps.0)
        (subst
          (λ u.
            Answered a callback id line c c₁ (start (write a) d) u
              (on_response asio success reply a (record u { pending = [] })))
          (sym steps.1) (read-Answered duration ip port callback id line more c idle plain))
