-- ===== src/TcpClient/Local.antt =====
-- asiolib/tcp-client-async.hpp: a handler seen from its own session: the session alone decides what it
-- does, and it writes to no other.
use boost_asio_samples.Base.{
  ℕ, ◌≡◌, refl, ap, sym, Bool, true, false, ◌++◌, Bytes, ◌==◌, ==_iff, if◌then◌else◌, Bool-cases,
  inl, inr,
}
use mathlib.Core.Path.{fun_ext}
use boost_asio_samples.Errors.{ErrorCode, AsioError, failed}
use boost_asio_samples.Stream.{open_stream, getline}
use boost_asio_samples.TcpClient.Sessions.{
  AsyncTcpClient, Session, Op, connect, write, read_until, put, start,
}
use boost_asio_samples.TcpClient.{
  on_request_complete, fail_request, on_connected, on_written, on_response,
}
use boost_asio_samples.TcpClient.Steps.{handle}
use boost_asio_samples.TcpClient.Once.{address}
use boost_asio_samples.TcpClient.Reuse.{self_eq}

-- Either another operation is started, or the session completes as it is then.
pub data LocalEffect : Type 0 where
  goes_on : Op → LocalEffect
  ends : Session → LocalEffect

abbrev going : Op → Session → LocalEffect
going op s = if s.was_cancelled then ends s else goes_on op

abbrev responded : Bytes → Session → Session
responded bytes s =
    let line = getline b'\n' s.response (open_stream (s.response_buf ++ bytes)) in
    record s { response = line.0; response_buf = line.1.rest }

abbrev pub effect_of : Op → ErrorCode → Bytes → Session → LocalEffect
effect_of (connect a) ec bytes s =
    if failed ec then ends (record s { ec = ec }) else going (write a) s
effect_of (write a) ec bytes s =
    if failed ec then ends (record s { ec = ec }) else going (read_until a) s
effect_of (read_until a) ec bytes s =
    if failed ec
    then ends (record s { response_buf = s.response_buf ++ bytes; ec = ec })
    else ends (responded bytes s)

put_self : (a : ℕ) (c : AsyncTcpClient) → put a (c.sessions a) c ≡ c
put_self a c =
    ap (λ f. record c { sessions = f })
      (fun_ext λ b. elim (Bool-cases (b == a)) [
        | inl e ↦ rw e (ap c.sessions (sym ((==_iff b a).0 e)))
        | inr e ↦ rw e refl
      ])

put-put : (a : ℕ) (s t : Session) (c : AsyncTcpClient) → put a t (put a s c) ≡ put a t c
put-put a s t c =
    ap (λ f. record c { sessions = f })
      (fun_ext λ b. elim (Bool-cases (b == a)) [ inl e ↦ rw e refl | inr e ↦ rw e refl ])

module _ (asio : AsioError) where
  abbrev pub apply : ℕ → LocalEffect → AsyncTcpClient → AsyncTcpClient
  apply a (goes_on op) c = start op c
  apply a (ends s) c = on_request_complete asio a (put a s c)

  going_cases :
      (cancelled : Bool) (op : Op) (a : ℕ) (c : AsyncTcpClient)
      → (if cancelled then on_request_complete asio a c else start op c)
        ≡ apply a (if cancelled then ends (c.sessions a) else goes_on op) c
  going_cases true op a c = ap (on_request_complete asio a) (sym (put_self a c))
  going_cases false op a c = refl

  going_lem :
      (op : Op) (a : ℕ) (c : AsyncTcpClient)
      → (if (c.sessions a).was_cancelled then on_request_complete asio a c else start op c)
        ≡ apply a (going op (c.sessions a)) c
  going_lem op a c = going_cases (c.sessions a).was_cancelled op a c

  pub handle_lem :
      (op : Op) (ec : ErrorCode) (bytes : Bytes) (c : AsyncTcpClient)
      → handle asio op ec bytes c
        ≡ apply (address op) (effect_of op ec bytes (c.sessions (address op))) c
  unfolding handle on_connected on_written on_response fail_request
  handle_lem (connect a) ec bytes c = elim (Bool-cases (failed ec)) [
    | inl e ↦ rw e refl
    | inr e ↦ rw e (going_lem (write a) a c)
  ]
  handle_lem (write a) ec bytes c = elim (Bool-cases (failed ec)) [
    | inl e ↦ rw e refl
    | inr e ↦ rw e (going_lem (read_until a) a c)
  ]
  handle_lem (read_until a) ec bytes c = elim (Bool-cases (failed ec)) [
    | inl e ↦
        let s = record (c.sessions a) { response_buf = (c.sessions a).response_buf ++ bytes } in
        rw (e, self_eq a) (ap (on_request_complete asio a) (put-put a s (record s { ec = ec }) c))
    | inr e ↦ rw e refl
  ]

  -- The other sessions are left as they are.
  pub untouched :
      (a b : ℕ) (f : LocalEffect) (c : AsyncTcpClient)
      → (b == a) ≡ false
      → (apply a f c).sessions b ≡ c.sessions b
  unfolding start on_request_complete
  untouched a b (goes_on op) c other = refl
  untouched a b (ends s) c other = rw other refl
