-- ===== src/IoBuffers/Conversation.antt =====
-- asiolib/io_buffers.hpp: `SendRequestAndGetReplay` at one end of a connection and
-- `GetRequestAndSendReplay` at the other, as in the test shutdown_send of basics/server-client.cpp.
use boost_asio_samples.Base.{◌≡◌, ap, ◌∙◌, ◌++◌, [], Bytes, before}
use mathlib.Core.Path.{subst}
use boost_asio_samples.Errors.{AsioError}
use boost_asio_samples.IoBuffers.Calls.{Socket, SocketLaws, done}
use boost_asio_samples.IoBuffers.{send_request_and_get_replay, get_request_and_send_replay}
use boost_asio_samples.IoBuffers.Replies.{Replied, send_request-Replied, get_request-Replied}

module _ (asio : AsioError) (client server : Socket) (asked : SocketLaws asio client)
    (answered : SocketLaws asio server) where
  -- On a new connection, where each end reads what the other sends until it shuts its direction down: if
  -- both functions return, the client has the reply and the server the request, each up to its first
  -- line end, and nothing that was sent is left unread.
  pub conversation :
      (request reply text line : Bytes) (s s' : client.State) (u u' : server.State)
      → asked.sent s ≡ []
      → answered.sent u ≡ []
      → send_request_and_get_replay asio client request s ≡ done text s'
      → get_request_and_send_replay asio server reply u ≡ done line u'
      → answered.incoming u ≡ asked.sent s'
      → asked.incoming s ≡ answered.sent u'
      → (text ≡ before b'\n' reply)
        × (line ≡ before b'\n' request)
        × (asked.incoming s' ≡ [])
        × (answered.incoming u' ≡ [])
  conversation request reply text line s s' u u' new_client new_server sends gets there back =
      let c =
        subst (Replied asio client asked s request) sends
          (send_request-Replied asio client asked request s) in
      let w =
        subst (Replied asio server answered u reply) gets
          (get_request-Replied asio server answered reply u) in
      (
        c.1 ∙ ap (before b'\n') (back ∙ w.0 ∙ ap (λ b. b ++ reply) new_server),
        w.1 ∙ ap (before b'\n') (there ∙ c.0 ∙ ap (λ b. b ++ request) new_client),
        c.2,
        w.2,
      )
