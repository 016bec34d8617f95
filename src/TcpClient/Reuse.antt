-- ===== src/TcpClient/Reuse.antt =====
-- asiolib/tcp-client-async.hpp: what the map of active sessions says once a session has completed.
use boost_asio_samples.Base.{
  ℕ, ◌≡◌, ◌≢◌, refl, ap, sym, ◌∙◌, ◌++◌, Bytes, none, ◌==◌, ==_iff, true, false, arith,
}
use mathlib.Core.Path.{subst}
use boost_asio_samples.Errors.{ErrorCode, AsioError, failed}
use boost_asio_samples.Dict.{nat_eq, lookup, lookup-erase}
use boost_asio_samples.TcpClient.Sessions.{
  AsyncTcpClient, Session, Op, connect, write, read_until, put,
}
use boost_asio_samples.TcpClient.{
  cancel_request, cancel_session, on_request_complete, fail_request, on_connected, on_written,
  on_response,
}
use boost_asio_samples.TcpClient.Steps.{handle}
use boost_asio_samples.TcpClient.Once.{address}

pub self_eq : (a : ℕ) → (a == a) ≡ true
self_eq a = (==_iff a a).1 refl

module _ (asio : AsioError) where
  -- Whatever session completes, a cancellation under its number finds nothing any more.
  pub complete_forgets :
      (a : ℕ) (c : AsyncTcpClient)
      → lookup (c.sessions a).id (on_request_complete asio a c).active ≡ none
  unfolding on_request_complete
  complete_forgets a c =
      lookup-erase (c.sessions a).id (c.sessions a).id c.active
      ∙ rw (self_eq (c.sessions a).id) refl

  cancel_nothing :
      (id : ℕ) (c : AsyncTcpClient) → lookup id c.active ≡ none → cancel_request id c ≡ c
  unfolding cancel_request cancel_session
  cancel_nothing id c h = rw h refl

  fail_forgets :
      (ec : ErrorCode) (a : ℕ) (c : AsyncTcpClient)
      → lookup (c.sessions a).id (fail_request asio ec a c).active ≡ none
  unfolding fail_request
  fail_forgets ec a c =
      let s = record (c.sessions a) { ec = ec } in
      let stored : (put a s c).sessions a ≡ s = rw (self_eq a) refl in
      subst (λ (t : Session). lookup t.id (on_request_complete asio a (put a s c)).active ≡ none)
        stored (complete_forgets a (put a s c))

  fail_keeps :
      (ec : ErrorCode) (a b : ℕ) (c : AsyncTcpClient)
      → a ≢ b
      → ((fail_request asio ec a c).pending ≡ c.pending)
        × ((fail_request asio ec a c).sessions b ≡ c.sessions b)
  unfolding fail_request on_request_complete
  fail_keeps ec a b c apart =
      let other : (b == a) ≡ false = ground (arith, apart) in (refl, rw other refl)

  -- A cancellation under the number of `b` does nothing, and what waits and `b` are as before.
  abbrev Unreached : ℕ → AsyncTcpClient → AsyncTcpClient → Type 0
  Unreached b c d =
      (cancel_request (c.sessions b).id d ≡ d)
      × (d.pending ≡ c.pending)
      × (d.sessions b ≡ c.sessions b)

  fail-Unreached :
      (ec : ErrorCode) (a b : ℕ) (c : AsyncTcpClient)
      → a ≢ b
      → (c.sessions b).id ≡ (c.sessions a).id
      → Unreached b c (fail_request asio ec a c)
  fail-Unreached ec a b c apart same =
      let kept = fail_keeps ec a b c apart in
      (
        cancel_nothing (c.sessions b).id (fail_request asio ec a c) (rw same (fail_forgets ec a c)),
        kept.0,
        kept.1,
      )

  -- The bytes of a read that fails change the session of the handler only.
  read-Unreached :
      (ec : ErrorCode) (bytes : Bytes) (a b : ℕ) (c : AsyncTcpClient)
      → a ≢ b
      → (c.sessions b).id ≡ (c.sessions a).id
      → failed ec ≡ true
      → Unreached b c (on_response asio ec bytes a c)
  unfolding on_response
  read-Unreached ec bytes a b c apart same fails =
      let s = c.sessions a in
      let read = put a (record s { response_buf = s.response_buf ++ bytes }) c in
      let other : (b == a) ≡ false = ground (arith, apart) in
      let mine : (a == a) ≡ true = self_eq a in
      let kept : read.sessions b ≡ c.sessions b = rw other refl in
      let stored : (read.sessions a).id ≡ (c.sessions a).id = rw mine refl in
      let rest =
        fail-Unreached ec a b read apart (ap (λ (t : Session). t.id) kept ∙ same ∙ sym stored) in
      rw fails (
        subst
            (λ (t : Session).
              cancel_request t.id (fail_request asio ec a read) ≡ fail_request asio ec a read)
            kept rest.0,
        rest.1,
        rest.2 ∙ kept,
      )

  error-Unreached :
      (op : Op) (ec : ErrorCode) (bytes : Bytes) (b : ℕ) (c : AsyncTcpClient)
      → address op ≢ b
      → (c.sessions b).id ≡ (c.sessions (address op)).id
      → failed ec ≡ true
      → Unreached b c (handle asio op ec bytes c)
  unfolding handle on_connected on_written
  error-Unreached (connect a) ec bytes b c apart same fails =
      rw fails (fail-Unreached ec a b c apart same)
  error-Unreached (write a) ec bytes b c apart same fails =
      rw fails (fail-Unreached ec a b c apart same)
  error-Unreached (read_until a) ec bytes b c apart same fails =
      read-Unreached ec bytes a b c apart same fails

  -- Two requests under one number: once any handler of one of them reports an error, a cancellation
  -- under the number does nothing at all, while what waits and the other request are left as they were,
  -- so that the other goes on where it still waits.
  pub reused_number_not_cancelled :
      (a b : ℕ) (op : Op) (ec : ErrorCode) (bytes : Bytes) (c : AsyncTcpClient)
      → a ≢ b
      → (c.sessions b).id ≡ (c.sessions a).id
      → address op ≡ a
      → failed ec ≡ true
      → let d = handle asio op ec bytes c in
        (cancel_request (c.sessions b).id d ≡ d)
        × (d.pending ≡ c.pending)
        × (d.sessions b ≡ c.sessions b)
  reused_number_not_cancelled a b op ec bytes c apart same at fails =
      error-Unreached op ec bytes b c (λ e. apart (sym at ∙ e))
        (same ∙ ap (λ x. (c.sessions x).id) (sym at)) fails
