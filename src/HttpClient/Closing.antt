-- ===== src/HttpClient/Closing.antt =====
-- asiolib/http-client-async.hpp: `HTTPClient` with its thread, which is in `io_service::run`, and `close`.
-- `run` returns once there is neither the work object nor an operation that waits; a handler that does
-- not return keeps the thread or, where an exception leaves it, ends the program. `close` is called once.
use boost_asio_samples.Base.{
  ◌+◌, ◌≡◌, refl, ap, sym, Bool, true, false, List, [], ◌∷◌, ◌++◌, All, All-append, All-middle,
  All-replace, length, length-append, arith, inl, inr, Bool-cases,
}
use mathlib.Core.Path.{subst}
use boost_asio_samples.Errors.{AsioError}
use boost_asio_samples.HttpClient.Request.{HttpRequest, Op, running, cancel}
use boost_asio_samples.HttpClient.{execute}
use boost_asio_samples.HttpClient.Outcomes.{execute-Adds, handle-Adds}
use boost_asio_samples.HttpClient.Steps.{Event, handle, ended}

-- The thread of the client: in `run`, back from it, or joined.
pub data ClientThread : Type 0 where
  in_run returned joined : ClientThread

-- A client with the requests that were executed; `closing` is set while its user is in `close`.
pub record HttpClient : Type 0 where
  pub requests : List HttpRequest
  pub work : Bool
  pub thread : ClientThread
  pub closing : Bool

-- `HTTPClient::HTTPClient`
abbrev pub new_http_client : HttpClient
new_http_client = record { requests = []; work = true; thread = in_run; closing = false }

-- `close`, until it waits for the thread.
unfoldable pub close : HttpClient → HttpClient
close c = record c { work = false; closing = true }

-- `m_thread->join()` returns once the thread has.
unfoldable pub join : ClientThread → ClientThread
join in_run = in_run
join returned = joined
join joined = joined

abbrev IsFresh : HttpRequest → Type 0
IsFresh r = (r.fate ≡ running) × (r.pending ≡ []) × (r.calls ≡ [])

abbrev Settled : HttpRequest → Type 0
Settled r = (r.pending ≡ []) × (r.fate ≡ running)

module _ (asio : AsioError) where
  -- What the user, the thread or the network may do next.
  pub data Move (c d : HttpClient) : Type 0 where
    executes :
        (r : HttpRequest)
        → IsFresh r
        → c.closing ≡ false
        → d ≡ record c { requests = c.requests ++ execute asio r ∷ [] }
        → Move c d
    cancels :
        (pre post : List HttpRequest) (r : HttpRequest) (is_open : Bool)
        → c.requests ≡ pre ++ r ∷ post
        → d ≡ record c { requests = pre ++ cancel is_open r ∷ post }
        → Move c d
    closes : c.closing ≡ false → d ≡ close c → Move c d
    joins : c.closing ≡ true → d ≡ record c { thread = join c.thread } → Move c d
    completes :
        (pre post : List HttpRequest) (r : HttpRequest) (before after : List Op) (op : Op)
        (e : Event)
        → c.thread ≡ in_run
        → All (λ q. q.fate ≡ running) c.requests
        → c.requests ≡ pre ++ r ∷ post
        → r.pending ≡ before ++ op ∷ after
        → d ≡ record c {
          requests = pre ++ handle asio op e (record r { pending = before ++ after }) ∷ post;
        }
        → Move c d
    leaves :
        c.thread ≡ in_run
        → c.work ≡ false
        → All Settled c.requests
        → d ≡ record c { thread = returned }
        → Move c d

  pub data Schedule (c : HttpClient) : HttpClient → Type 0 where
    at_start : Schedule c c
    later : {d e : HttpClient} → Schedule c d → Move d e → Schedule c e

-- One outcome of a request: an operation that waits, a call of the callback, or a handler that did not
-- return.
abbrev One : HttpRequest → Type 0
One r = length r.pending + (length r.calls + ended r.fate) ≡ 1

abbrev IsOut : ClientThread → Type 0
IsOut in_run = ⊥
IsOut returned = Unit
IsOut joined = Unit

join-IsOut : (t : ClientThread) → IsOut (join t) → IsOut t
unfolding join
join-IsOut in_run h = h
join-IsOut returned h = tt
join-IsOut joined h = tt

module _ (asio : AsioError) where
  execute-One : (r : HttpRequest) → IsFresh r → One (execute asio r)
  execute-One r fresh = omega (
    arith,
    (execute-Adds asio r fresh.0).0,
    ap length fresh.1,
    ap length fresh.2,
    ap ended fresh.0,
  )

  handle-One :
      (r : HttpRequest) (before after : List Op) (op : Op) (e : Event)
      → r.fate ≡ running
      → r.pending ≡ before ++ op ∷ after
      → One r
      → One (handle asio op e (record r { pending = before ++ after }))
  handle-One r before after op e alive waits one = omega (
    arith,
    (handle-Adds asio op e (record r { pending = before ++ after }) alive).0,
    ap length waits,
    length-append before (op ∷ after),
    length-append before after,
    one,
  )

  cancel-One : (is_open : Bool) (r : HttpRequest) → One r → One (cancel is_open r)
  unfolding cancel
  cancel-One is_open r h = h

  cancel-Settled : (is_open : Bool) (r : HttpRequest) → Settled r → Settled (cancel is_open r)
  unfolding cancel
  cancel-Settled is_open r h = h

  -- Each request has one outcome, and the thread is out of `run` only in `close`, when none waits.
  record Inv (c : HttpClient) : Type 0 where
    ones : All One c.requests
    working : c.closing ≡ false → c.work ≡ true
    out : IsOut c.thread → (c.work ≡ false) × (c.closing ≡ true) × All Settled c.requests

  shut_of : (c : HttpClient) → c.work ≡ false → Inv c → c.closing ≡ true
  shut_of c idle h = elim (Bool-cases c.closing) [
    | inl shut ↦ shut
    | inr busy ↦ (let w = h.working busy in absurd cc)
  ]

  not_out : (c : HttpClient) {P : Type 0} → c.thread ≡ in_run → IsOut c.thread → P
  not_out c runs o = absurd (subst IsOut runs o)

  Move-Inv : {c d : HttpClient} → Move asio c d → Inv c → Inv d
  unfolding close
  Move-Inv {c = c} (executes r fresh busy e) h = subst Inv (sym e) (record {
    ones = All-append One c.requests (execute asio r ∷ []) h.ones (execute-One r fresh, tt);
    working = h.working;
    out = λ o. (let shut = (h.out o).1 in absurd cc);
  })
  Move-Inv {c = c} (cancels pre post r is_open has e) h = subst Inv (sym e) (record {
    ones =
        All-replace One pre post r (cancel is_open r) (cancel-One is_open r)
          (subst (All One) has h.ones);
    working = h.working;
    out = λ o.
        let k = h.out o in
        (
          k.0,
          k.1,
          All-replace Settled pre post r (cancel is_open r) (cancel-Settled is_open r)
              (subst (All Settled) has k.2),
        );
  })
  Move-Inv {c = c} (closes busy e) h = subst Inv (sym e) (record {
    ones = h.ones;
    working = λ k. absurd cc;
    out = λ o. (let shut = (h.out o).1 in absurd cc);
  })
  Move-Inv {c = c} (joins shut e) h =
      subst Inv (sym e)
        (record { ones = h.ones; working = h.working; out = λ o. h.out (join-IsOut c.thread o) })
  Move-Inv {c = c} (completes pre post r before after op ev runs alive has waits e) h =
      let next = handle asio op ev (record r { pending = before ++ after }) in
      let fate =
        (All-middle (λ (q : HttpRequest). q.fate ≡ running) pre r post
          (subst (All (λ (q : HttpRequest). q.fate ≡ running)) has alive)).0 in
      subst Inv (sym e) (record {
        ones =
            All-replace One pre post r next (handle-One r before after op ev fate waits)
              (subst (All One) has h.ones);
        working = h.working;
        out = λ o. not_out c runs o;
      })
  Move-Inv {c = c} (leaves runs idle settled e) h =
      subst Inv (sym e) (record {
        ones = h.ones;
        working = h.working;
        out = λ o. (idle, shut_of c idle h, settled);
      })

  Schedule-Inv : {c d : HttpClient} → Schedule asio c d → Inv c → Inv d
  Schedule-Inv at_start h = h
  Schedule-Inv (later run m) h = Move-Inv m (Schedule-Inv run h)

-- A request that is over: it waits for nothing, and its callback was called once.
abbrev pub IsOver : HttpRequest → Type 0
IsOver r = (r.pending ≡ []) × (length r.calls ≡ 1)

all-IsOver : (rs : List HttpRequest) → All One rs → All Settled rs → All IsOver rs
all-IsOver [] ones settled = tt
all-IsOver (r ∷ rs) ones settled = (
  (settled.0.0, omega (arith, ones.0, ap length settled.0.0, ap ended settled.0.1)),
  all-IsOver rs ones.1 settled.1,
)

module _ (asio : AsioError) where
  -- When `close` of an HTTP client has joined its thread, every request that was executed is over: it
  -- waits for nothing and its callback was called once, in every schedule of the user, of other threads
  -- that cancel, of the thread of the client and of the network.
  pub http_closed-IsOver :
      (c : HttpClient) → Schedule asio new_http_client c → c.thread ≡ joined → All IsOver c.requests
  http_closed-IsOver c schedule done =
      let h =
        Schedule-Inv asio schedule
          (record { ones = tt; working = λ k. refl; out = λ o. elim o [ ] }) in
      all-IsOver c.requests h.ones (h.out (subst IsOut (sym done) tt)).2
