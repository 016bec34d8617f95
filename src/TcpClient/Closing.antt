-- ===== src/TcpClient/Closing.antt =====
-- asiolib/tcp-client-async.hpp: the threads of `AsyncTCPClient`, each in `io_context::run`, and `Close`.
-- `run` returns once there is neither the work object nor an operation that waits. A handler is one step,
-- with what its callback begins and cancels: the locks that it takes let fewer things happen, not
-- more; whether they let it go on is the matter of Locks and Unblocked. `CancelRequest` may come from
-- another thread at any time; a request is begun by the user before `Close`, or by a callback.
use boost_asio_samples.Base.{
  ℕ, zero, suc, ◌<◌, ◌+◌, ◌≡◌, ◌≢◌, refl, ap, sym, ◌∙◌, Bool, true, false, List, [], ◌∷◌, ◌++◌, All,
  Bytes, Option, none, some, ◌⊎◌, inl, inr, Bool-cases, ltb, length, arith, if◌then◌else◌,
}
use mathlib.Core.Path.{subst}
use boost_asio_samples.Dict.{nat_eq, lookup}
use boost_asio_samples.Errors.{ErrorCode, AsioError}
use boost_asio_samples.TcpClient.Sessions.{AsyncTcpClient, Session, Op, new_client}
use boost_asio_samples.TcpClient.{
  number_of_threads, emulate_long_computation_op, cancel_request, cancel_session,
}
use boost_asio_samples.TcpClient.Steps
use boost_asio_samples.TcpClient.Steps.{handle, Run, here, next}
use boost_asio_samples.TcpClient.Once.{waiting, called, one_callback}

-- Where a thread stands: in `run`, back from it, or joined.
pub data Thread : Type 0 where
  in_run returned joined : Thread

-- A client with its threads; `closing` is set while its user is in `Close`.
pub record Threaded : Type 0 where
  pub client : AsyncTcpClient
  pub work : Bool
  pub threads : List Thread
  pub closing : Bool

abbrev pub started : ℕ → List Thread
started zero = []
started (suc n) = in_run ∷ started n

-- `AsyncTCPClient::AsyncTCPClient`
unfoldable pub create : (requested hardware : ℕ) → (ℕ → Session) → Threaded
create requested hardware store = record {
  client = new_client store;
  work = true;
  threads = started (number_of_threads requested hardware);
  closing = false;
}

-- `Close`, until it joins the first thread.
unfoldable pub close : Threaded → Threaded
close s = record s { work = false; closing = true }

-- The loop of `Close`: it waits for the first thread that is not joined.
unfoldable pub join_next : List Thread → List Thread
join_next [] = []
join_next (joined ∷ ts) = joined ∷ join_next ts
join_next (returned ∷ ts) = joined ∷ ts
join_next (in_run ∷ ts) = in_run ∷ ts

-- What a callback may call on its client, and a list of such calls.
pub data UserCall : Type 0 where
  begin_call :
      (thrown : Option ErrorCode) (duration_sec : ℕ) (ip : Bytes) (port callback request_id : ℕ)
      → UserCall
  cancel_call : (request_id : ℕ) → UserCall

abbrev pub user_call : UserCall → AsyncTcpClient → AsyncTcpClient
user_call (begin_call thrown duration_sec ip port callback request_id) c =
    emulate_long_computation_op thrown duration_sec ip port callback request_id c
user_call (cancel_call request_id) c = cancel_request request_id c

abbrev pub user_calls : List UserCall → AsyncTcpClient → AsyncTcpClient
user_calls [] c = c
user_calls (call ∷ calls) c = user_calls calls (user_call call c)

module _ (asio : AsioError) where
  -- What the user, a thread in `run` or the network may do next.
  pub data Move (s t : Threaded) : Type 0 where
    begins :
        (thrown : Option ErrorCode) (duration_sec : ℕ) (ip : Bytes) (port callback request_id : ℕ)
        → s.closing ≡ false
        → t ≡ record s {
          client =
              emulate_long_computation_op thrown duration_sec ip port callback request_id s.client;
        }
        → Move s t
    cancels :
        (request_id : ℕ) → t ≡ record s { client = cancel_request request_id s.client } → Move s t
    closes : s.closing ≡ false → t ≡ close s → Move s t
    joins : s.closing ≡ true → t ≡ record s { threads = join_next s.threads } → Move s t
    completes :
        (before after : List Thread) (pre post : List Op) (op : Op) (ec : ErrorCode) (bytes : Bytes)
        (calls : List UserCall)
        → s.threads ≡ before ++ in_run ∷ after
        → s.client.pending ≡ pre ++ op ∷ post
        → t ≡ record s {
          client =
              user_calls calls
                (handle asio op ec bytes (record s.client { pending = pre ++ post }));
        }
        → Move s t
    leaves :
        (before after : List Thread)
        → s.threads ≡ before ++ in_run ∷ after
        → s.work ≡ false
        → s.client.pending ≡ []
        → t ≡ record s { threads = before ++ returned ∷ after }
        → Move s t

  pub data Schedule (s : Threaded) : Threaded → Type 0 where
    at_start : Schedule s s
    later : {t u : Threaded} → Schedule s t → Move t u → Schedule s u

-- A thread that is not in `run` any more.
abbrev pub IsOut : List Thread → Type 0
IsOut [] = ⊥
IsOut (in_run ∷ ts) = IsOut ts
IsOut (returned ∷ ts) = Unit
IsOut (joined ∷ ts) = Unit

started-in : (n : ℕ) → IsOut (started n) → ⊥
started-in zero h = h
started-in (suc n) h = started-in n h

join-IsOut : (ts : List Thread) → IsOut (join_next ts) → IsOut ts
unfolding join_next
join-IsOut [] h = elim h [ ]
join-IsOut (joined ∷ ts) h = tt
join-IsOut (returned ∷ ts) h = tt
join-IsOut (in_run ∷ ts) h = h

length-join : (ts : List Thread) → length (join_next ts) ≡ length ts
unfolding join_next
length-join [] = refl
length-join (joined ∷ ts) = ap suc (length-join ts)
length-join (returned ∷ ts) = refl
length-join (in_run ∷ ts) = refl

length-leave :
    (before after : List Thread)
    → length (before ++ returned ∷ after) ≡ length (before ++ in_run ∷ after)
length-leave [] after = refl
length-leave (t ∷ before) after = ap suc (length-leave before after)

length-started : (n : ℕ) → length (started n) ≡ n
length-started zero = refl
length-started (suc n) = ap suc (length-started n)

pub append-ne : {A : Type 0} (xs : List A) (y : A) (ys : List A) → xs ++ y ∷ ys ≢ []
append-ne [] y ys = λ e. cc
append-ne (x ∷ xs) y ys = λ e. cc

shut_of : {b w : Bool} → (b ≡ true) ⊎ (b ≡ false) → w ≡ false → (b ≡ false → w ≡ true) → b ≡ true
shut_of (inl h) idle working = h
shut_of (inr h) idle working = (let w = working h in absurd cc)

module _ (asio : AsioError) (store : ℕ → Session) (n : ℕ) where
  -- The client has run; there are `n` threads; and one is out of `run` only in `Close`, when no operation
  -- waits.
  pub record Inv (s : Threaded) : Type 0 where
    pub run : Run asio (new_client store) s.client
    pub size : length s.threads ≡ n
    pub working : s.closing ≡ false → s.work ≡ true
    pub shut : s.closing ≡ true → s.work ≡ false
    pub out : IsOut s.threads → (s.work ≡ false) × (s.closing ≡ true) × (s.client.pending ≡ [])

  -- The client moves while its user is not in `Close`: then every thread is in `run`.
  user_calls-Run :
      (calls : List UserCall) (c : AsyncTcpClient)
      → Run asio (new_client store) c
      → Run asio (new_client store) (user_calls calls c)
  user_calls-Run [] c run = run
  user_calls-Run (begin_call thrown duration ip port callback id ∷ calls) c run =
      user_calls-Run calls _ (next run (Steps.begin thrown duration ip port callback id refl))
  user_calls-Run (cancel_call id ∷ calls) c run =
      user_calls-Run calls _ (next run (Steps.cancel id refl))

  cancel_pending : (o : Option ℕ) (c : AsyncTcpClient) → (cancel_session o c).pending ≡ c.pending
  unfolding cancel_session
  cancel_pending none c = refl
  cancel_pending (some a) c = refl

  cancelled-Inv :
      (id : ℕ) (s : Threaded) → Inv s → Inv (record s { client = cancel_request id s.client })
  unfolding cancel_request
  cancelled-Inv id s h = record {
    run = next h.run (Steps.cancel id refl);
    size = h.size;
    working = h.working;
    shut = h.shut;
    out = λ o.
        let (idle, k, done) = h.out o in
        (idle, k, cancel_pending (lookup id s.client.active) s.client ∙ done);
  }

  open-Inv :
      (s : Threaded) (d : AsyncTcpClient)
      → s.closing ≡ false
      → Steps.Step asio s.client d
      → Inv s
      → Inv (record s { client = d })
  open-Inv s d busy step h = record {
    run = next h.run step;
    size = h.size;
    working = h.working;
    shut = h.shut;
    out = λ o. (let shut = (h.out o).1 in absurd cc);
  }

  Move-Inv : {s t : Threaded} → Move asio s t → Inv s → Inv t
  unfolding close
  Move-Inv {s = s} (begins thrown duration ip port callback id busy e) h =
      let d = emulate_long_computation_op thrown duration ip port callback id s.client in
      subst Inv (sym e) (open-Inv s d busy (Steps.begin thrown duration ip port callback id refl) h)
  Move-Inv {s = s} (cancels id e) h = subst Inv (sym e) (cancelled-Inv id s h)
  Move-Inv {s = s} (closes busy e) h = subst Inv (sym e) (record {
    run = h.run;
    size = h.size;
    working = λ k. absurd cc;
    shut = λ k. refl;
    out = λ o. (let shut = (h.out o).1 in absurd cc);
  })
  Move-Inv {s = s} (joins shut e) h = subst Inv (sym e) (record {
    run = h.run;
    size = length-join s.threads ∙ h.size;
    working = h.working;
    shut = h.shut;
    out = λ o. h.out (join-IsOut s.threads o);
  })
  Move-Inv {s = s} (completes before after pre post op ec bytes calls runs waits e) h =
      subst Inv (sym e) (record {
        run = user_calls-Run calls _ (next h.run (Steps.complete pre post op ec bytes waits refl));
        size = h.size;
        working = h.working;
        shut = h.shut;
        out = λ o. absurd (append-ne pre op post (sym waits ∙ (h.out o).2));
      })
  Move-Inv {s = s} (leaves before after runs idle done e) h = subst Inv (sym e) (record {
    run = h.run;
    size = length-leave before after ∙ ap length (sym runs) ∙ h.size;
    working = h.working;
    shut = h.shut;
    out = λ o. (idle, shut_of (Bool-cases s.closing) idle h.working, done);
  })

  pub Schedule-Inv : {s t : Threaded} → Schedule asio s t → Inv s → Inv t
  Schedule-Inv at_start h = h
  Schedule-Inv (later run m) h = Move-Inv m (Schedule-Inv run h)

  joined-IsOut : (ts : List Thread) → 0 < length ts → All (λ t. t ≡ joined) ts → IsOut ts
  joined-IsOut [] pos h = absurd (omega arith)
  joined-IsOut (t ∷ ts) pos h = subst (λ u. IsOut (u ∷ ts)) (sym h.0) tt

module _ (asio : AsioError) where
  pub create-Inv :
      (store : ℕ → Session) (requested hardware : ℕ) (s : Threaded)
      → Schedule asio (create requested hardware store) s
      → Inv asio store (number_of_threads requested hardware) s
  unfolding create
  create-Inv store requested hardware s schedule =
      let n = number_of_threads requested hardware in
      Schedule-Inv asio store n schedule (record {
        run = here;
        size = length-started n;
        working = λ k. refl;
        shut = λ k. absurd cc;
        out = λ o. absurd (started-in n o);
      })

  -- When `Close` has joined every thread of a client that has at least one, no operation waits and the
  -- callback of every request was called once: in every schedule of the user, the threads and the
  -- network, whatever was cancelled.
  pub closed_called_once :
      (store : ℕ → Session) (requested hardware a : ℕ) (s : Threaded)
      → 0 < number_of_threads requested hardware
      → Schedule asio (create requested hardware store) s
      → All (λ t. t ≡ joined) s.threads
      → a < s.client.next
      → (s.client.pending ≡ []) × (called a s.client.calls ≡ 1)
  closed_called_once store requested hardware a s pos schedule all known =
      let n = number_of_threads requested hardware in
      let h = create-Inv store requested hardware s schedule in
      let none_wait = (h.out (joined-IsOut asio store n s.threads (omega (arith, h.size)) all)).2 in
      let lt : ltb a s.client.next ≡ true = ground arith in
      let once : waiting a s.client.pending + called a s.client.calls ≡ 1 =
        one_callback asio store s.client a h.run ∙ ap (λ b. if b then 1 else 0) lt in
      (none_wait, omega (arith, once, ap (waiting a) none_wait))
