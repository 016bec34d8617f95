-- ===== src/TcpClient/Effects.antt =====
-- asiolib/tcp-client-async.hpp: what each handler does to the map of active sessions and to what waits.
use boost_asio_samples.Base.{
  ℕ, ◌≡◌, refl, ap, sym, ◌∙◌, [], ◌∷◌, ◌++◌, Bytes, ◌==◌, ==_iff, inl, inr, Bool-cases,
}
use boost_asio_samples.Errors.{ErrorCode, AsioError, failed}
use boost_asio_samples.Dict.{nat_eq, erase}
use boost_asio_samples.Stream.{open_stream, getline}
use boost_asio_samples.TcpClient.Sessions.{
  AsyncTcpClient, Session, Op, connect, write, read_until, put, start,
}
use boost_asio_samples.TcpClient.{
  on_request_complete, fail_request, on_connected, on_written, on_response,
}
use boost_asio_samples.TcpClient.Steps.{handle}
use boost_asio_samples.TcpClient.Once.{address}

-- The same sessions were begun, under the same numbers.
unfoldable pub SameIds : AsyncTcpClient → AsyncTcpClient → Type 0
SameIds c d = (d.next ≡ c.next) × ((b : ℕ) → (d.sessions b).id ≡ (c.sessions b).id)

pub put-SameIds :
    (a : ℕ) (s : Session) (c : AsyncTcpClient) → s.id ≡ (c.sessions a).id → SameIds c (put a s c)
unfolding SameIds
put-SameIds a s c h = (
  refl,
  λ b. elim (Bool-cases (b == a)) [
    | inl same ↦
        let e : b ≡ a = (==_iff b a).0 same in rw same (h ∙ ap (λ x. (c.sessions x).id) (sym e))
    | inr other ↦ rw other refl
  ],
)

-- What the handler of the session `a` does to the map and to what waits.
pub data Effect (a : ℕ) (c d : AsyncTcpClient) : Type 0 where
  goes_on :
      (op : Op)
      → address op ≡ a
      → d.active ≡ c.active
      → d.pending ≡ c.pending ++ op ∷ []
      → SameIds c d
      → Effect a c d
  is_done :
      d.active ≡ erase (c.sessions a).id c.active
      → d.pending ≡ c.pending
      → SameIds c d
      → Effect a c d

start-Effect : (op : Op) (c : AsyncTcpClient) → Effect (address op) c (start op c)
unfolding start SameIds
start-Effect op c = goes_on op refl refl refl (refl, λ b. refl)

module _ (asio : AsioError) where
  complete-Effect : (a : ℕ) (c : AsyncTcpClient) → Effect a c (on_request_complete asio a c)
  unfolding on_request_complete SameIds
  complete-Effect a c = is_done refl refl (refl, λ b. refl)

  -- The session is written to, and then it completes.
  put-Effect :
      (a : ℕ) (s : Session) (c : AsyncTcpClient)
      → s.id ≡ (c.sessions a).id
      → Effect a c (on_request_complete asio a (put a s c))
  unfolding on_request_complete SameIds
  put-Effect a s c h =
      let same = put-SameIds a s c h in
      is_done (ap (λ i. erase i c.active) (same.1 a)) refl (refl, same.1)

  fail-Effect :
      (ec : ErrorCode) (a : ℕ) (c : AsyncTcpClient) → Effect a c (fail_request asio ec a c)
  unfolding fail_request
  fail-Effect ec a c = put-Effect a (record (c.sessions a) { ec = ec }) c refl

  under_put :
      (a : ℕ) (v : Session) (c d : AsyncTcpClient)
      → v.id ≡ (c.sessions a).id
      → Effect a (put a v c) d
      → Effect a c d
  unfolding SameIds
  under_put a v c d h (goes_on op own map waits same) =
      goes_on op own map waits (same.0, λ b. same.1 b ∙ (put-SameIds a v c h).1 b)
  under_put a v c d h (is_done map waits same) =
      is_done (map ∙ ap (λ i. erase i c.active) ((put-SameIds a v c h).1 a)) waits
        (same.0, λ b. same.1 b ∙ (put-SameIds a v c h).1 b)

  connected-Effect :
      (ec : ErrorCode) (a : ℕ) (c : AsyncTcpClient) → Effect a c (on_connected asio ec a c)
  unfolding on_connected
  connected-Effect ec a c = elim (Bool-cases (failed ec)) [
    | inl e ↦ rw e (fail-Effect ec a c)
    | inr e ↦ elim (Bool-cases (c.sessions a).was_cancelled) [
      | inl k ↦ rw (e, k) (complete-Effect a c)
      | inr k ↦ rw (e, k) (start-Effect (write a) c)
    ]
  ]

  written-Effect :
      (ec : ErrorCode) (a : ℕ) (c : AsyncTcpClient) → Effect a c (on_written asio ec a c)
  unfolding on_written
  written-Effect ec a c = elim (Bool-cases (failed ec)) [
    | inl e ↦ rw e (fail-Effect ec a c)
    | inr e ↦ elim (Bool-cases (c.sessions a).was_cancelled) [
      | inl k ↦ rw (e, k) (complete-Effect a c)
      | inr k ↦ rw (e, k) (start-Effect (read_until a) c)
    ]
  ]

  response-Effect :
      (ec : ErrorCode) (bytes : Bytes) (a : ℕ) (c : AsyncTcpClient)
      → Effect a c (on_response asio ec bytes a c)
  unfolding on_response
  response-Effect ec bytes a c =
      let s = c.sessions a in
      let buffer = s.response_buf ++ bytes in
      let line = getline b'\n' s.response (open_stream buffer) in
      let v = record s { response_buf = buffer } in
      elim (Bool-cases (failed ec)) [
        | inl e ↦ rw e (
            under_put a v c (fail_request asio ec a (put a v c)) refl
              (fail-Effect ec a (put a v c)))
        | inr e ↦
            rw e (put-Effect a (record s { response = line.0; response_buf = line.1.rest }) c refl)
      ]

  pub handle-Effect :
      (op : Op) (ec : ErrorCode) (bytes : Bytes) (c : AsyncTcpClient)
      → Effect (address op) c (handle asio op ec bytes c)
  unfolding handle
  handle-Effect (connect a) ec bytes c = connected-Effect ec a c
  handle-Effect (write a) ec bytes c = written-Effect ec a c
  handle-Effect (read_until a) ec bytes c = response-Effect ec bytes a c
