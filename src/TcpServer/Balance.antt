-- ===== src/TcpServer/Balance.antt =====
-- asiolib/tcp-server-async.hpp: the operations and the ends of each service and of the acceptor, counted.
use boost_asio_samples.Base.{
  ℕ, ◌+◌, ◌≡◌, refl, ap, sym, ◌∙◌, Bool, true, false, List, [], ◌∷◌, ◌++◌, Bytes, ◌==◌, ==_iff, ltb,
  if◌then◌else◌, arith, Bool-cases, inl, inr, count, count-append,
}
use mathlib.Core.Path.{subst}
use boost_asio_samples.Errors.{ErrorCode, failed}
use boost_asio_samples.TcpServer.Connections.{
  AsyncAcceptor, ServiceFakeAsync, Op, accept, read_until, write, new_acceptor, put, start,
}
use boost_asio_samples.TcpServer.{
  init, stop, serve, on_accept, clean, process_request, recieve_request, send_answer,
}
use boost_asio_samples.TcpServer.Steps.{handle, stopping, complete, Run, here, next}

-- Whether an operation is the accept, or belongs to the service `a`.
abbrev pub is_accept : Op → Bool
is_accept accept = true
is_accept _ = false

abbrev pub owned : ℕ → Op → Bool
owned a accept = false
owned a (read_until b) = b == a
owned a (write b t) = b == a

-- What waits for the service `a` and how often it was deleted; the same for the acceptor.
abbrev pub service_outcomes : ℕ → AsyncAcceptor → ℕ
service_outcomes a c = count (owned a) c.pending + (c.services a).deletes

abbrev pub accept_outcomes : AsyncAcceptor → ℕ
accept_outcomes c = count is_accept c.pending + c.closes

abbrev Served : ℕ → AsyncAcceptor → Type 0
Served a c = service_outcomes a c ≡ (if ltb a c.next then 1 else 0)

abbrev pub one : Bool → ℕ
one b = if b then 1 else 0

serve-Adds :
    (a : ℕ) (c : AsyncAcceptor)
    → Served a c
    → Served a (serve c) × (accept_outcomes (serve c) ≡ accept_outcomes c)
unfolding serve start
serve-Adds a c h = (
  ground (arith, count-append (owned a) c.pending (read_until c.next ∷ [])),
  omega (arith, count-append is_accept c.pending (read_until c.next ∷ [])),
)

-- The acceptor goes on, or closes.
go_on-Adds :
    (a : ℕ) (c : AsyncAcceptor)
    → Served a c
    → let d = if c.stop_flag then record c { closes = c.closes + 1 } else init c in
      Served a d × (accept_outcomes d ≡ accept_outcomes c + 1)
unfolding init start
go_on-Adds a c h = elim (Bool-cases c.stop_flag) [
  | inl e ↦ rw e (h, omega arith)
  | inr e ↦ rw e (
    omega (arith, h, count-append (owned a) c.pending (accept ∷ [])),
    omega (arith, count-append is_accept c.pending (accept ∷ [])),
  )
]

on_accept-Adds :
    (a : ℕ) (ec : ErrorCode) (c : AsyncAcceptor)
    → Served a c
    → Served a (on_accept ec c) × (accept_outcomes (on_accept ec c) ≡ accept_outcomes c + 1)
unfolding on_accept
on_accept-Adds a ec c h = elim (Bool-cases (failed ec)) [
  | inl e ↦ rw e (go_on-Adds a c h)
  | inr e ↦
      let s = serve-Adds a c h in
      let t = go_on-Adds a (serve c) s.0 in rw e (t.0, omega (arith, t.1, s.1))
]

-- What a handler of the service `b` does to the service `a` and to the acceptor.
abbrev pub Adds : ℕ → ℕ → AsyncAcceptor → AsyncAcceptor → Type 0
Adds a b c d =
    (service_outcomes a d ≡ service_outcomes a c + one (b == a))
    × (accept_outcomes d ≡ accept_outcomes c)
    × (d.next ≡ c.next)

clean-Adds : (a b : ℕ) (c : AsyncAcceptor) → Adds a b c (clean b c)
unfolding clean
clean-Adds a b c = elim (Bool-cases (a == b)) [
  | inl e ↦
      let same : a ≡ b = (==_iff a b).0 e in
      rw e (
        (let e' : (b == a) ≡ true = ground arith in
            rw e' (omega (arith, ap (λ x. (c.services x).deletes) same))),
        refl,
        refl,
      )
  | inr e ↦ let e' : (b == a) ≡ false = ground arith in rw (e, e') (omega arith, refl, refl)
]

put_deletes :
    (a b : ℕ) (s : ServiceFakeAsync) (c : AsyncAcceptor)
    → s.deletes ≡ (c.services b).deletes
    → ((put b s c).services a).deletes ≡ (c.services a).deletes
put_deletes a b s c same = elim (Bool-cases (a == b)) [
  | inl e ↦ rw e (same ∙ ap (λ x. (c.services x).deletes) (sym ((==_iff a b).0 e)))
  | inr e ↦ rw e refl
]

write-Adds :
    (a b : ℕ) (text : Bytes) (s : ServiceFakeAsync) (c : AsyncAcceptor)
    → s.deletes ≡ (c.services b).deletes
    → Adds a b c (start (write b text) (put b s c))
unfolding start
write-Adds a b text s c same = (
  omega (arith, count-append (owned a) c.pending (write b text ∷ []), put_deletes a b s c same),
  omega (arith, count-append is_accept c.pending (write b text ∷ [])),
  refl,
)

pub recieve-Adds :
    (a b : ℕ) (ec : ErrorCode) (bytes : Bytes) (c : AsyncAcceptor)
    → Adds a b c (recieve_request ec bytes b c)
unfolding recieve_request process_request
recieve-Adds a b ec bytes c =
    let s = c.services b in
    let s' = process_request (record s { buffer = s.buffer ++ bytes }) in
    elim (Bool-cases (failed ec)) [
      | inl e ↦ rw e (clean-Adds a b c)
      | inr e ↦ rw e (write-Adds a b s'.response s' c refl)
    ]

-- One service and the acceptor, in every state.
abbrev Balanced : ℕ → AsyncAcceptor → Type 0
Balanced a c = Served a c × (accept_outcomes c ≡ 1)

-- A handler of the service `b`, whose operation was counted before it ran.
Balanced-Adds :
    (a b : ℕ) (pre post : List Op) (op : Op) (c d : AsyncAcceptor)
    → c.pending ≡ pre ++ op ∷ post
    → owned a op ≡ (b == a)
    → is_accept op ≡ false
    → Adds a b (record c { pending = pre ++ post }) d
    → Balanced a c
    → Balanced a d
Balanced-Adds a b pre post op c d split mine other added h =
    let same : service_outcomes a d ≡ service_outcomes a c = omega (
      arith,
      added.0,
      ap one mine,
      count-append (owned a) pre post,
      count-append (owned a) pre (op ∷ post),
      ap (count (owned a)) split,
    ) in
    (
      same ∙ h.0 ∙ ap (λ n. one (ltb a n)) (sym added.2),
      omega (
        arith,
        added.1,
        h.1,
        ap one other,
        count-append is_accept pre post,
        count-append is_accept pre (op ∷ post),
        ap (count is_accept) split,
      ),
    )

Balanced-handle :
    (a : ℕ) (pre post : List Op) (op : Op) (ec : ErrorCode) (bytes : Bytes) (c : AsyncAcceptor)
    → c.pending ≡ pre ++ op ∷ post
    → Balanced a c
    → Balanced a (handle op ec bytes (record c { pending = pre ++ post }))
unfolding handle send_answer
Balanced-handle a pre post accept ec bytes c split h =
    let left = record c { pending = pre ++ post } in
    let served : Served a left = omega (
      arith,
      h.0,
      count-append (owned a) pre post,
      count-append (owned a) pre (accept ∷ post),
      ap (count (owned a)) split,
    ) in
    let r = on_accept-Adds a ec left served in
    (
      r.0,
      omega (
        arith,
        r.1,
        h.1,
        count-append is_accept pre post,
        count-append is_accept pre (accept ∷ post),
        ap (count is_accept) split,
      ),
    )
Balanced-handle a pre post (read_until b) ec bytes c split h =
    Balanced-Adds a b pre post (read_until b) c
      (recieve_request ec bytes b (record c { pending = pre ++ post })) split refl refl
      (recieve-Adds a b ec bytes (record c { pending = pre ++ post })) h
Balanced-handle a pre post (write b text) ec bytes c split h =
    Balanced-Adds a b pre post (write b text) c (clean b (record c { pending = pre ++ post })) split
      refl refl (clean-Adds a b (record c { pending = pre ++ post })) h

Balanced-Run : (a : ℕ) {c d : AsyncAcceptor} → Balanced a c → Run c d → Balanced a d
unfolding stop
Balanced-Run a h here = h
Balanced-Run a h (next run (stopping e)) = subst (Balanced a) (sym e) (Balanced-Run a h run)
Balanced-Run a h (next {d = c} run (complete pre post op ec bytes split e)) =
    subst (Balanced a) (sym e)
      (Balanced-handle a pre post op ec bytes c split (Balanced-Run a h run))

-- From the start of an acceptor, whatever the network does and whenever it is stopped: the acceptor
-- waits for one connection or has been closed once, never both; the service of every connection it
-- accepted waits for one operation or was deleted once; and there are no other services.
pub accept-Balanced :
    (c : AsyncAcceptor) (a : ℕ)
    → Run (init new_acceptor) c
    → (count is_accept c.pending + c.closes ≡ 1)
      × (count (owned a) c.pending + (c.services a).deletes ≡ (if ltb a c.next then 1 else 0))
unfolding init start
accept-Balanced c a run = let b = Balanced-Run a (ground arith, refl) run in (b.1, b.0)
