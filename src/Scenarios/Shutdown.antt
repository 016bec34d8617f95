-- ===== src/Scenarios/Shutdown.antt =====
-- basics/server-client.cpp: the test shutdown_send, a request and its reply between two threads.
use boost_asio_samples.Base.{
  ◌≡◌, refl, ◌∙◌, Bool, true, List, [], ◌∷◌, Bytes, codes, bytes_eq, bytes_eq_refl, Without,
  before_fresh,
}
use boost_asio_samples.Errors.{ErrorCode, AsioError}
use boost_asio_samples.IoBuffers.Calls.{
  Socket, SocketLaws, Action, Outcome, Exception, system_error, done, threw, endless, pure, ◌>>=◌,
}
use boost_asio_samples.IoBuffers.{send_request_and_get_replay, get_request_and_send_replay}
use boost_asio_samples.IoBuffers.Replies.{Replied, send_request-Replied, get_request-Replied}
use boost_asio_samples.IoBuffers.Conversation.{conversation}
use boost_asio_samples.Scenarios.Ends.{at_first, at_second, Both}
use boost_asio_samples.Scenarios.Connection.{Holds, first_then, second_then}

module _ (asio : AsioError) (server client : Socket) where
  -- The client's future is asked first. Each thread has only its own socket, so that the order of the
  -- two does not show in their results.
  unfoldable pub exchanged : (request reply : Bytes) → Action (Both server client) (List Bool)
  exchanged request reply = do
    server_replay ← at_second (send_request_and_get_replay asio client request)
    client_request ← at_first (get_request_and_send_replay asio server reply)
    pure (bytes_eq reply server_replay ∷ bytes_eq request client_request ∷ [])

  unfoldable pub shutdown_send : Action (Both server client) (List Bool)
  shutdown_send = exchanged (codes "Hello Bob!") (codes "Hi dear Alice!")

module _ (asio : AsioError) (k : Socket) (law : SocketLaws asio k) where
  abbrev pub IsThrown : Exception → Type 0
  IsThrown x = (e : ErrorCode) × (x ≡ system_error e)

  -- A run of one end returned this.
  returned_outcome :
      (m : Action k.State Bytes) (s : k.State) (sent : Bytes) (o : Outcome k.State Bytes)
      → m s ≡ o
      → Replied asio k law s sent o
      → Holds (λ a t. m s ≡ done a t) IsThrown o
  returned_outcome m s sent (done a t) e h = e
  returned_outcome m s sent (threw x t) e h = h
  returned_outcome m s sent endless e h = elim h [ ]

  pub sends :
      (request : Bytes) (s : k.State)
      → Holds
          (λ a t. send_request_and_get_replay asio k request s ≡ done a t)
          IsThrown
          (send_request_and_get_replay asio k request s)
  sends request s =
      returned_outcome (send_request_and_get_replay asio k request) s request _ refl
        (send_request-Replied asio k law request s)

  pub answers :
      (reply : Bytes) (s : k.State)
      → Holds
          (λ a t. get_request_and_send_replay asio k reply s ≡ done a t)
          IsThrown
          (get_request_and_send_replay asio k reply s)
  answers reply s =
      returned_outcome (get_request_and_send_replay asio k reply) s reply _ refl
        (get_request-Replied asio k law reply s)

module _ (asio : AsioError) (server client : Socket) (at_server : SocketLaws asio server)
    (at_client : SocketLaws asio client) where
  -- On a new connection, where each end reads what the other sends until it shuts its direction down,
  -- and neither text has a line end: the test ends, by an error of Asio or with both checks held.
  pub exchanged_passes :
      (request reply : Bytes) (s : server.State) (c : client.State)
      → Without b'\n' request
      → Without b'\n' reply
      → at_server.sent s ≡ []
      → at_client.sent c ≡ []
      → ((line text : Bytes) (t : server.State) (u : client.State)
          → get_request_and_send_replay asio server reply s ≡ done line t
          → send_request_and_get_replay asio client request c ≡ done text u
          → (at_server.incoming s ≡ at_client.sent u) × (at_client.incoming c ≡ at_server.sent t))
      → Holds
          (λ checks t. checks ≡ true ∷ true ∷ [])
          (IsThrown asio server at_server)
          (exchanged asio server client request reply (s, c))
  unfolding exchanged
  exchanged_passes request reply s c plain plain' new new' carried =
      second_then (λ a t. send_request_and_get_replay asio client request c ≡ done a t) _ _
        (send_request_and_get_replay asio client request) _ s c
        (sends asio client at_client request c)
        λ text u asked.
          first_then (λ a t. get_request_and_send_replay asio server reply s ≡ done a t) _ _
            (get_request_and_send_replay asio server reply) _ s u
            (answers asio server at_server reply s)
            λ line t got.
              let came = carried line text t u got asked in
              let both =
                conversation asio client server at_client at_server request reply text line c u s t
                  new' new asked got came.0 came.1 in
              let same : text ≡ reply = both.0 ∙ before_fresh b'\n' reply plain' in
              let same' : line ≡ request = both.1 ∙ before_fresh b'\n' request plain in
              rw (same, same', bytes_eq_refl reply, bytes_eq_refl request) refl
