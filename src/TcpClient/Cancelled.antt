-- ===== src/TcpClient/Cancelled.antt =====
-- asiolib/tcp-client-async.hpp: the calls of the callback of a session that was cancelled.
use boost_asio_samples.Base.{
  ℕ, ◌<◌, ◌≤◌, ◌≡◌, refl, ap, sym, ◌∙◌, List, [], ◌++◌, append-nil, append_assoc, All, All-append,
  Bytes, Option, none, some, ◌==◌, ==_iff, true, false, if◌then◌else◌, arith, Bool-cases, inl, inr,
}
use mathlib.Core.Path.{subst}
use boost_asio_samples.Errors.{ErrorCode, AsioError, failed}
use boost_asio_samples.Dict.{nat_eq, lookup}
use boost_asio_samples.Stream.{open_stream, getline}
use boost_asio_samples.TcpClient.Sessions.{
  AsyncTcpClient, Session, Op, connect, write, read_until, Call, put, start,
}
use boost_asio_samples.TcpClient.{
  emulate_long_computation_op, cancel_request, cancel_session, final_code, on_request_complete,
  fail_request, on_connected, on_written, on_response,
}
use boost_asio_samples.TcpClient.Steps.{handle, Step, begin, cancel, complete, Run, here, next}

abbrev Cancelled : ℕ → AsyncTcpClient → Type 0
Cancelled a c = (c.sessions a).was_cancelled ≡ true

-- No call for the session `a` reports success.
abbrev pub NoSuccess : ℕ → List Call → Type 0
NoSuccess a = All (λ k. k.session ≡ a → failed k.ec ≡ true)

-- What a step from `c` to `d` does where the session `a` is cancelled.
record Kept (a : ℕ) (c d : AsyncTcpClient) : Type 0 where
  still : Cancelled a d
  grows : c.next ≤ d.next
  made : List Call
  calls_are : d.calls ≡ c.calls ++ made
  no_success : NoSuccess a made

-- A step that makes no calls.
quiet :
    (a : ℕ) (c d : AsyncTcpClient)
    → Cancelled a d
    → c.next ≤ d.next
    → d.calls ≡ c.calls
    → Kept a c d
quiet a c d still grows same = record {
  still = still;
  grows = grows;
  made = [];
  calls_are = same ∙ sym (append-nil c.calls);
  no_success = tt;
}

-- Writing to a session without touching its flag keeps the flag of each.
put-Cancelled :
    (a b : ℕ) (s : Session) (c : AsyncTcpClient)
    → s.was_cancelled ≡ (c.sessions b).was_cancelled
    → Cancelled a c
    → Cancelled a (put b s c)
put-Cancelled a b s c same h = elim (Bool-cases (a == b)) [
  | inl e ↦ rw e (same ∙ ap (λ x. (c.sessions x).was_cancelled) (sym ((==_iff a b).0 e)) ∙ h)
  | inr e ↦ rw e h
]

-- What is kept by a step after a session was written to.
after_put : (a b : ℕ) (s : Session) (c d : AsyncTcpClient) → Kept a (put b s c) d → Kept a c d
after_put a b s c d k = record {
  still = k.still;
  grows = k.grows;
  made = k.made;
  calls_are = k.calls_are;
  no_success = k.no_success;
}

module _ (asio : AsioError) where
  final_code_fails : (s : Session) → s.was_cancelled ≡ true → failed (final_code asio s) ≡ true
  final_code_fails s h = ground (arith, asio.operation_aborted_failed)

  complete-Kept :
      (a b : ℕ) (c : AsyncTcpClient) → Cancelled a c → Kept a c (on_request_complete asio b c)
  unfolding on_request_complete
  complete-Kept a b c h = record {
    still = h;
    grows = omega arith;
    made = _;
    calls_are = refl;
    no_success =
        ((λ e. final_code_fails (c.sessions b) (ap (λ x. (c.sessions x).was_cancelled) e ∙ h)), tt);
  }

  fail-Kept :
      (a b : ℕ) (ec : ErrorCode) (c : AsyncTcpClient)
      → Cancelled a c
      → Kept a c (fail_request asio ec b c)
  unfolding fail_request
  fail-Kept a b ec c h =
      let s = record (c.sessions b) { ec = ec } in
      after_put a b s c (on_request_complete asio b (put b s c))
        (complete-Kept a b (put b s c) (put-Cancelled a b s c refl h))

  start-Kept : (a : ℕ) (op : Op) (c : AsyncTcpClient) → Cancelled a c → Kept a c (start op c)
  unfolding start
  start-Kept a op c h = quiet a c (start op c) h (omega arith) refl

  going_on :
      (a b : ℕ) (op : Op) (ec : ErrorCode) (c : AsyncTcpClient)
      → Cancelled a c
      → Kept a c (
          if failed ec
          then fail_request asio ec b c
          else if (c.sessions b).was_cancelled
          then on_request_complete asio b c
          else start op c)
  going_on a b op ec c h = elim (Bool-cases (failed ec)) [
    | inl e ↦ rw e (fail-Kept a b ec c h)
    | inr e ↦ elim (Bool-cases (c.sessions b).was_cancelled) [
      | inl e' ↦ rw (e, e') (complete-Kept a b c h)
      | inr e' ↦ rw (e, e') (start-Kept a op c h)
    ]
  ]

  response-Kept :
      (a b : ℕ) (ec : ErrorCode) (bytes : Bytes) (c : AsyncTcpClient)
      → Cancelled a c
      → Kept a c (on_response asio ec bytes b c)
  unfolding on_response
  response-Kept a b ec bytes c h =
      let s = c.sessions b in
      let buffer = s.response_buf ++ bytes in
      let line = getline b'\n' s.response (open_stream buffer) in
      let u = record s { response_buf = buffer } in
      let v = record s { response = line.0; response_buf = line.1.rest } in
      elim (Bool-cases (failed ec)) [
        | inl e ↦ rw e (
            after_put a b u c (fail_request asio ec b (put b u c))
              (fail-Kept a b ec (put b u c) (put-Cancelled a b u c refl h)))
        | inr e ↦ rw e (
            after_put a b v c (on_request_complete asio b (put b v c))
              (complete-Kept a b (put b v c) (put-Cancelled a b v c refl h)))
      ]

  handle-Kept :
      (a : ℕ) (op : Op) (ec : ErrorCode) (bytes : Bytes) (c : AsyncTcpClient)
      → Cancelled a c
      → Kept a c (handle asio op ec bytes c)
  unfolding handle on_connected on_written
  handle-Kept a (connect b) ec bytes c h = going_on a b (write b) ec c h
  handle-Kept a (write b) ec bytes c h = going_on a b (read_until b) ec c h
  handle-Kept a (read_until b) ec bytes c h = response-Kept a b ec bytes c h

  begin-Kept :
      (a : ℕ) (thrown : Option ErrorCode) (duration : ℕ) (ip : Bytes) (port callback id : ℕ)
      (c : AsyncTcpClient)
      → a < c.next
      → Cancelled a c
      → Kept a c (emulate_long_computation_op thrown duration ip port callback id c)
  unfolding emulate_long_computation_op start
  begin-Kept a (some e) duration ip port callback id c lt h = quiet a c c h (omega arith) refl
  begin-Kept a none duration ip port callback id c lt h =
      let other : (a == c.next) ≡ false = ground arith in
      quiet a c (emulate_long_computation_op none duration ip port callback id c) (rw other h)
        (omega arith) refl

  cancel-Kept :
      (a : ℕ) (o : Option ℕ) (c : AsyncTcpClient) → Cancelled a c → Kept a c (cancel_session o c)
  unfolding cancel_session
  cancel-Kept a none c h = quiet a c c h (omega arith) refl
  cancel-Kept a (some b) c h = elim (Bool-cases (a == b)) [
    | inl e ↦ quiet a c (cancel_session (some b) c) (rw e refl) (omega arith) refl
    | inr e ↦ quiet a c (cancel_session (some b) c) (rw e h) (omega arith) refl
  ]

  Step-Kept :
      (a : ℕ) {c d : AsyncTcpClient} → a < c.next → Cancelled a c → Step asio c d → Kept a c d
  unfolding cancel_request
  Step-Kept a {c = c} lt h (begin thrown duration ip port callback id e) =
      subst (Kept a c) (sym e) (begin-Kept a thrown duration ip port callback id c lt h)
  Step-Kept a {c = c} lt h (cancel id e) =
      subst (Kept a c) (sym e) (cancel-Kept a (lookup id c.active) c h)
  Step-Kept a {c = c} lt h (complete pre post op ec bytes split e) =
      let k = handle-Kept a op ec bytes (record c { pending = pre ++ post }) h in
      subst (Kept a c) (sym e) (record {
        still = k.still;
        grows = k.grows;
        made = k.made;
        calls_are = k.calls_are;
        no_success = k.no_success;
      })

  Run-Kept : (a : ℕ) {c d : AsyncTcpClient} → a < c.next → Cancelled a c → Run asio c d → Kept a c d
  Run-Kept a {c = c} lt h here = quiet a c c h (omega arith) refl
  Run-Kept a {c = c} lt h (next {e = e} run step) =
      let k = Run-Kept a lt h run in
      let l = Step-Kept a (omega (arith, k.grows)) k.still step in
      record {
        still = l.still;
        grows = omega (arith, k.grows, l.grows);
        made = k.made ++ l.made;
        calls_are =
            l.calls_are ∙ ap (λ t. t ++ l.made) k.calls_are ∙ append_assoc c.calls k.made l.made;
        no_success = All-append _ k.made l.made k.no_success l.no_success;
      }

  -- From any state in which the session `a` is cancelled, no call of its callback that a run makes
  -- reports success, and the session stays cancelled, whatever else happens.
  pub cancelled-NoSuccess :
      (a : ℕ) (c d : AsyncTcpClient)
      → a < c.next
      → (c.sessions a).was_cancelled ≡ true
      → Run asio c d
      → (made : List Call) × (d.calls ≡ c.calls ++ made)
        × NoSuccess a made
        × ((d.sessions a).was_cancelled ≡ true)
  cancelled-NoSuccess a c d lt h run =
      let k = Run-Kept a lt h run in (k.made, k.calls_are, k.no_success, k.still)
