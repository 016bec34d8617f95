-- ===== src/TcpClient/Once.antt =====
-- asiolib/tcp-client-async.hpp: the operations and the calls of the callback of each session, counted.
use boost_asio_samples.Base.{
  ℕ, ◌+◌, ◌≡◌, refl, ap, sym, ◌∙◌, List, [], ◌∷◌, ◌++◌, Bytes, Option, none, some, ◌==◌, ltb,
  if◌then◌else◌, arith,
}
use mathlib.Core.Path.{subst}
use boost_asio_samples.Errors.{ErrorCode, AsioError}
use boost_asio_samples.Dict.{nat_eq, lookup}
use boost_asio_samples.Stream.{open_stream, getline}
use boost_asio_samples.TcpClient.Sessions.{
  AsyncTcpClient, Session, Op, connect, write, read_until, Call, new_client, put, start,
}
use boost_asio_samples.TcpClient.{
  emulate_long_computation_op, cancel_request, cancel_session, on_request_complete, fail_request,
  on_connected, on_written, on_response,
}
use boost_asio_samples.TcpClient.Steps.{handle, Step, begin, cancel, complete, Run, here, next}

abbrev pub address : Op → ℕ
address (connect a) = a
address (write a) = a
address (read_until a) = a

abbrev pub one : ℕ → ℕ → ℕ
one a b = if a == b then 1 else 0

-- How many operations of a session wait, and how often its callback was called.
abbrev pub waiting : ℕ → List Op → ℕ
waiting a [] = 0
waiting a (op ∷ ops) = one (address op) a + waiting a ops

abbrev pub called : ℕ → List Call → ℕ
called a [] = 0
called a (c ∷ cs) = one c.session a + called a cs

pub waiting-append : (a : ℕ) (xs ys : List Op) → waiting a (xs ++ ys) ≡ waiting a xs + waiting a ys
waiting-append a [] ys = omega arith
waiting-append a (x ∷ xs) ys = omega (arith, waiting-append a xs ys)

called-append : (a : ℕ) (xs ys : List Call) → called a (xs ++ ys) ≡ called a xs + called a ys
called-append a [] ys = omega arith
called-append a (x ∷ xs) ys = omega (arith, called-append a xs ys)

abbrev outcomes : ℕ → AsyncTcpClient → ℕ
outcomes a c = waiting a c.pending + called a c.calls

-- A handler of session `b` adds one outcome to it, none to others, and begins no session.
abbrev Adds : ℕ → ℕ → AsyncTcpClient → AsyncTcpClient → Type 0
Adds a b c d = (outcomes a d ≡ outcomes a c + one b a) × (d.next ≡ c.next)

start-Adds : (a : ℕ) (op : Op) (c : AsyncTcpClient) → Adds a (address op) c (start op c)
unfolding start
start-Adds a op c = (omega (arith, waiting-append a c.pending (op ∷ [])), refl)

module _ (asio : AsioError) where
  complete-Adds : (a b : ℕ) (c : AsyncTcpClient) → Adds a b c (on_request_complete asio b c)
  unfolding on_request_complete
  complete-Adds a b c = (omega (arith, called-append a c.calls _), refl)

  fail-Adds :
      (a b : ℕ) (ec : ErrorCode) (c : AsyncTcpClient) → Adds a b c (fail_request asio ec b c)
  unfolding fail_request
  fail-Adds a b ec c = complete-Adds a b (put b (record (c.sessions b) { ec = ec }) c)

  connected-Adds :
      (a b : ℕ) (ec : ErrorCode) (c : AsyncTcpClient) → Adds a b c (on_connected asio ec b c)
  unfolding on_connected
  connected-Adds a b ec c =
      ground (arith, fail-Adds a b ec c, complete-Adds a b c, start-Adds a (write b) c)

  written-Adds :
      (a b : ℕ) (ec : ErrorCode) (c : AsyncTcpClient) → Adds a b c (on_written asio ec b c)
  unfolding on_written
  written-Adds a b ec c =
      ground (arith, fail-Adds a b ec c, complete-Adds a b c, start-Adds a (read_until b) c)

  response-Adds :
      (a b : ℕ) (ec : ErrorCode) (bytes : Bytes) (c : AsyncTcpClient)
      → Adds a b c (on_response asio ec bytes b c)
  unfolding on_response
  response-Adds a b ec bytes c =
      let s = c.sessions b in
      let buffer = s.response_buf ++ bytes in
      let line = getline b'\n' s.response (open_stream buffer) in
      ground (
        arith,
        fail-Adds a b ec (put b (record s { response_buf = buffer }) c),
        complete-Adds a b (put b (record s { response = line.0; response_buf = line.1.rest }) c),
      )

  handle-Adds :
      (a : ℕ) (op : Op) (ec : ErrorCode) (bytes : Bytes) (c : AsyncTcpClient)
      → Adds a (address op) c (handle asio op ec bytes c)
  unfolding handle
  handle-Adds a (connect b) ec bytes c = connected-Adds a b ec c
  handle-Adds a (write b) ec bytes c = written-Adds a b ec c
  handle-Adds a (read_until b) ec bytes c = response-Adds a b ec bytes c

  abbrev Once : ℕ → AsyncTcpClient → Type 0
  Once a c = outcomes a c ≡ (if ltb a c.next then 1 else 0)

  begin-Once :
      (a : ℕ) (thrown : Option ErrorCode) (duration : ℕ) (ip : Bytes) (port callback id : ℕ)
      (c : AsyncTcpClient)
      → Once a c
      → Once a (emulate_long_computation_op thrown duration ip port callback id c)
  unfolding emulate_long_computation_op start
  begin-Once a (some e) duration ip port callback id c h = h
  begin-Once a none duration ip port callback id c h =
      ground (arith, waiting-append a c.pending (connect c.next ∷ []))

  cancel-Once : (a : ℕ) (o : Option ℕ) (c : AsyncTcpClient) → Once a c → Once a (cancel_session o c)
  unfolding cancel_session
  cancel-Once a none c h = h
  cancel-Once a (some b) c h = h

  Once-Step : (a : ℕ) {c d : AsyncTcpClient} → Step asio c d → Once a c → Once a d
  unfolding cancel_request
  Once-Step a (begin thrown duration ip port callback id e) h =
      subst (Once a) (sym e) (begin-Once a thrown duration ip port callback id _ h)
  Once-Step a {c = c} (cancel id e) h =
      subst (Once a) (sym e) (cancel-Once a (lookup id c.active) c h)
  Once-Step a {c = c} (complete pre post op ec bytes split e) h =
      let left = record c { pending = pre ++ post } in
      subst (Once a) (sym e) (
        let added = handle-Adds a op ec bytes left in
        let same : outcomes a (handle asio op ec bytes left) ≡ outcomes a c = omega (
          arith,
          added.0,
          waiting-append a pre post,
          waiting-append a pre (op ∷ post),
          ap (waiting a) split,
        ) in
        same ∙ h ∙ ap (λ n. if ltb a n then 1 else 0) (sym added.1))

  -- In every run of a client, every session that was begun waits for one operation or has called its
  -- callback once, never both and never twice, whatever is cancelled and however sessions interleave;
  -- a session that was not begun does neither.
  pub one_callback :
      (store : ℕ → Session) (c : AsyncTcpClient) (a : ℕ)
      → Run asio (new_client store) c
      → waiting a c.pending + called a c.calls ≡ (if ltb a c.next then 1 else 0)
  one_callback store c a here = ground arith
  one_callback store c a (next run step) = Once-Step a step (one_callback store _ a run)
