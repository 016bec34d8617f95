-- ===== src/SyncUdp.antt =====
-- asiolib/udp-client-sync.hpp: the client that sends its request as one datagram and gives back what it
-- has read of one datagram.
mod Tests
use boost_asio_samples.Base.{
  ℕ, ◌≤◌, ◌≡◌, refl, ap, sym, ◌∙◌, List, [], ◌∷◌, ◌++◌, Bytes, length, take, zero, suc, ◌⊎◌, inl,
  inr, arith,
}
use mathlib.Core.Path.{subst}
use boost_asio_samples.Errors.{ErrorCode}
use boost_asio_samples.IoBuffers.Calls.{
  Action, Outcome, done, threw, endless, Exception, system_error, runtime_error, Result,
  failed_with, returned, After, call, pure, ◌>>=◌, ◌>>◌, Result-cases,
}
use boost_asio_samples.Setup.Tried.{Tried as Attempt, returns, throws, Endpoint, System}
use boost_asio_samples.Setup.{create_endpoint}
use boost_asio_samples.SyncTcp.{request_bytes}
use boost_asio_samples.SyncServer.Acceptors.{attempt}

-- The calls of Asio on a socket of UDP: `send_to`, `receive_from` into a buffer of a size, and
-- `shutdown(shutdown_both)`.
pub record UdpSocket : Type 1 where
  pub State : Type 0
  pub send_to : Bytes → Endpoint → State → Result State ℕ
  pub receive_from : ℕ → State → Result State Bytes
  pub shutdown_both : State → Result State (Unit {0})

-- What is documented: a datagram is sent whole, and received whole or as much of it as the buffer has
-- room for, where that is no error.
pub record UdpLaws (k : UdpSocket) : Type 0 where
  pub sent : k.State → List (Bytes × Endpoint)
  pub incoming : k.State → List Bytes
  pub send_to_lem :
      (b : Bytes) (e : Endpoint) (s : k.State)
      → After
          (k.send_to b e s)
          (λ t. (sent t ≡ sent s) × (incoming t ≡ incoming s))
          (λ m t. (sent t ≡ sent s ++ (b, e) ∷ []) × (incoming t ≡ incoming s))
  pub receive_from_lem :
      (n : ℕ) (s : k.State)
      → After
          (k.receive_from n s)
          (λ t. sent t ≡ sent s)
          (λ b t.
            (sent t ≡ sent s) × ((d : Bytes) × (incoming s ≡ d ∷ incoming t) × (b ≡ take n d)))
  pub shutdown_lem :
      (s : k.State)
      → After
          (k.shutdown_both s)
          (λ t. sent t ≡ sent s)
          (λ u t. (sent t ≡ sent s) × (incoming t ≡ incoming s))

-- `char response[6]`
abbrev pub response_size : ℕ
response_size = 6

module _ (sys : System) (k : UdpSocket) where
  unfoldable pub send_datagram : Endpoint → Bytes → Action k.State ℕ
  send_datagram ep request = call (k.send_to request ep)

  unfoldable pub receive_datagram : Action k.State Bytes
  receive_datagram = do
    response ← call (k.receive_from response_size)
    call k.shutdown_both
    pure response

  -- `SyncUDPClient::EmulateLongComputationOp`
  unfoldable pub emulate_long_comp_op : ℕ → Bytes → ℕ → Action k.State Bytes
  emulate_long_comp_op duration_sec ip port = do
    ep ← attempt (create_endpoint sys ip port)
    send_datagram ep (request_bytes duration_sec)
    receive_datagram

length-take_le : (n : ℕ) (b : Bytes) → length (take n b) ≤ n
length-take_le zero b = omega arith
length-take_le (suc n) [] = omega arith
length-take_le (suc n) (x ∷ b) = omega (arith, length-take_le n b)

module _ (sys : System) (k : UdpSocket) (law : UdpLaws k) where
  -- From `s` to `t` one datagram with the request went to the end point.
  abbrev pub SentOnce : ℕ → Bytes → ℕ → k.State → k.State → Type 0
  SentOnce duration_sec ip port s t =
      (ep : Endpoint) × (create_endpoint sys ip port ≡ returns ep)
      × (law.sent t ≡ law.sent s ++ (request_bytes duration_sec, ep) ∷ [])

  -- The request, and the start of the datagram that was read; or at most the request, and an exception.
  abbrev pub Replied : ℕ → Bytes → ℕ → k.State → Outcome k.State Bytes → Type 0
  Replied duration_sec ip port s (done text t) =
      SentOnce duration_sec ip port s t
      × ((d : Bytes) × (law.incoming s ≡ d ∷ law.incoming t) × (text ≡ take response_size d))
      × (length text ≤ response_size)
  Replied duration_sec ip port s (threw x t) =
      (law.sent t ≡ law.sent s) ⊎ SentOnce duration_sec ip port s t
  Replied duration_sec ip port s endless = ⊥

  Replied-made :
      (duration_sec port : ℕ) (ip : Bytes) (s : k.State) (made : Attempt Endpoint)
      → create_endpoint sys ip port ≡ made
      → Replied duration_sec ip port s (emulate_long_comp_op sys k duration_sec ip port s)
  unfolding emulate_long_comp_op send_datagram receive_datagram
  Replied-made duration_sec port ip s (throws x) e = rw (e, Replied) (inl refl)
  Replied-made duration_sec port ip s (returns ep) e =
      let bytes = request_bytes duration_sec in
      elim (Result-cases (k.send_to bytes ep s)) [
        | inl (code, t, h) ↦ rw (e, h, Replied) (inl (rw h at (law.send_to_lem bytes ep s)).0)
        | inr (m, t, h) ↦
            let went = rw h at (law.send_to_lem bytes ep s) in
            elim (Result-cases (k.receive_from response_size t)) [
              | inl (code, u, h') ↦
                  let kept = rw h' at (law.receive_from_lem response_size t) in
                  rw (e, h, h', Replied) (inr (ep, e, kept ∙ went.0))
              | inr (b, u, h') ↦
                  let got = rw h' at (law.receive_from_lem response_size t) in
                  elim (Result-cases (k.shutdown_both u)) [
                    | inl (code, v, h'') ↦
                        let kept = rw h'' at (law.shutdown_lem u) in
                        rw (e, h, h', h'', Replied) (inr (ep, e, kept ∙ got.0 ∙ went.0))
                    | inr (_, v, h'') ↦
                        let kept = rw h'' at (law.shutdown_lem u) in
                        rw (e, h, h', h'', Replied)
                          (
                            (ep, e, kept.0 ∙ got.0 ∙ went.0),
                            (
                              got.1.0,
                              sym went.1 ∙ got.1.1 ∙ ap (◌∷◌ got.1.0) (sym kept.1),
                              got.1.2,
                            ),
                            subst (λ t. length t ≤ response_size) (sym got.1.2)
                                (length-take_le response_size got.1.0),
                          )
                  ]
            ]
      ]

  -- The client of UDP, where it returns, has sent its request as one datagram to the end point of the
  -- address, and gives back the first six bytes of one datagram, whatever more it holds. Where it throws,
  -- it has sent at most that datagram, and none if the address was not one.
  pub udp-Replied :
      (duration_sec port : ℕ) (ip : Bytes) (s : k.State)
      → Replied duration_sec ip port s (emulate_long_comp_op sys k duration_sec ip port s)
  udp-Replied duration_sec port ip s =
      Replied-made duration_sec port ip s (create_endpoint sys ip port) refl
