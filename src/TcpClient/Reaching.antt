-- ===== src/TcpClient/Reaching.antt =====
-- asiolib/tcp-client-async.hpp: the map of active sessions, while no request is begun under the number of
-- one that is active.
use boost_asio_samples.Base.{
  ℕ, ◌+◌, ◌<◌, ◌≤◌, ◌≡◌, refl, ap, sym, true, false, List, ◌∷◌, ◌++◌, Bytes, Option, none, ◌==◌,
  inl, inr, Bool-cases, ltb, arith,
}
use mathlib.Core.Path.{subst}
use boost_asio_samples.Errors.{ErrorCode, AsioError}
use boost_asio_samples.Dict.{nat_eq, lookup}
use boost_asio_samples.TcpClient.Sessions.{AsyncTcpClient, Session, Op, new_client}
use boost_asio_samples.TcpClient.{emulate_long_computation_op, cancel_request, cancel_session}
use boost_asio_samples.TcpClient.Steps.{handle, begin, cancel, complete, Run, here, next}
use boost_asio_samples.TcpClient.Once.{address, waiting, one_callback}
use boost_asio_samples.TcpClient.Reuse.{self_eq}
use boost_asio_samples.TcpClient.Effects.{handle-Effect}
use boost_asio_samples.TcpClient.Listed.{
  IsListed, one_bit, begin-IsListed, cancel-IsListed, complete-IsListed,
}

module _ (asio : AsioError) where
  -- A run in which no request is begun under the number of an active one.
  pub data FreshRun (c : AsyncTcpClient) : AsyncTcpClient → Type 0 where
    none_yet : FreshRun c c
    then_begin :
        {d e : AsyncTcpClient} (thrown : Option ErrorCode) (duration : ℕ) (ip : Bytes)
        (port callback id : ℕ)
        → FreshRun c d
        → lookup id d.active ≡ none
        → e ≡ emulate_long_computation_op thrown duration ip port callback id d
        → FreshRun c e
    then_cancel :
        {d e : AsyncTcpClient} (id : ℕ) → FreshRun c d → e ≡ cancel_request id d → FreshRun c e
    then_complete :
        {d e : AsyncTcpClient} (pre post : List Op) (op : Op) (ec : ErrorCode) (bytes : Bytes)
        → FreshRun c d
        → d.pending ≡ pre ++ op ∷ post
        → e ≡ handle asio op ec bytes (record d { pending = pre ++ post })
        → FreshRun c e

  fresh_run : {c d : AsyncTcpClient} → FreshRun c d → Run asio c d
  fresh_run none_yet = here
  fresh_run (then_begin thrown duration ip port callback id run free e) =
      next (fresh_run run) (begin thrown duration ip port callback id e)
  fresh_run (then_cancel id run e) = next (fresh_run run) (cancel id e)
  fresh_run (then_complete pre post op ec bytes run split e) =
      next (fresh_run run) (complete pre post op ec bytes split e)

  waits_once :
      (store : ℕ → Session) (c : AsyncTcpClient) (a : ℕ)
      → FreshRun (new_client store) c
      → waiting a c.pending ≤ 1
  waits_once store c a run =
      let count = one_callback asio store c a (fresh_run run) in
      elim (Bool-cases (ltb a c.next)) [
        | inl e ↦ omega (arith, count, ap one_bit e)
        | inr e ↦ omega (arith, count, ap one_bit e)
      ]

  FreshRun-IsListed :
      (store : ℕ → Session) (c : AsyncTcpClient) → FreshRun (new_client store) c → IsListed c
  unfolding cancel_request
  FreshRun-IsListed store c none_yet = λ a pos. absurd (omega (arith, pos))
  FreshRun-IsListed store c (then_begin {d = d} thrown duration ip port callback id run free e) =
      subst IsListed (sym e) (
        begin-IsListed asio thrown duration ip port callback id d free
          (FreshRun-IsListed store d run))
  FreshRun-IsListed store c (then_cancel {d = d} id run e) =
      subst IsListed (sym e)
        (cancel-IsListed asio (lookup id d.active) d (FreshRun-IsListed store d run))
  FreshRun-IsListed store c (then_complete {d = d} pre post op ec bytes run split e) =
      let left = record d { pending = pre ++ post } in
      subst IsListed (sym e) (
        complete-IsListed asio pre post op d (handle asio op ec bytes left) split
          (handle-Effect asio op ec bytes left) (waits_once store d (address op) run)
          (FreshRun-IsListed store d run))

  -- From a new client, in a run in which no request is begun under the number of one that is active:
  -- `CancelRequest` with the number of a session that waits for an operation reaches that session. It
  -- marks it as cancelled, cancels its socket once more and leaves every other session as it was.
  pub cancel_reaches :
      (store : ℕ → Session) (c : AsyncTcpClient) (a : ℕ)
      → FreshRun (new_client store) c
      → 0 < waiting a c.pending
      → let d = cancel_request (c.sessions a).id c in
        ((d.sessions a).was_cancelled ≡ true)
        × ((d.sessions a).cancels ≡ (c.sessions a).cancels + 1)
        × ((b : ℕ) → (b == a) ≡ false → d.sessions b ≡ c.sessions b)
  unfolding cancel_request cancel_session
  cancel_reaches store c a run pos =
      rw ((FreshRun-IsListed store c run a pos).1, self_eq a) (refl, refl, λ b other. rw other refl)
