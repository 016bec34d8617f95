-- ===== src/TcpServer/Stages.antt =====
-- asiolib/tcp-server-async.hpp: the life of the service of one connection, whatever the others do.
use boost_asio_samples.Base.{
  ℕ, ◌+◌, ◌<◌, ◌≤◌, ◌≡◌, refl, ap, sym, ◌∙◌, true, false, List, [], ◌∷◌, ◌++◌, Bytes, ◌==◌, ==_iff,
  if◌then◌else◌, arith, Bool-cases, inl, inr, append-nil,
}
use mathlib.Core.Path.{subst}
use boost_asio_samples.Errors.{ErrorCode, failed}
use boost_asio_samples.Stream.{open_stream, getline}
use boost_asio_samples.TcpServer.Connections.{
  AsyncAcceptor, ServiceFakeAsync, Op, accept, read_until, write, new_service, put, start,
}
use boost_asio_samples.TcpServer.{
  init, serve, on_accept, clean, processed, process_request, recieve_request,
}
use boost_asio_samples.TcpServer.Balance.{owned}

-- The operations of the service `a`.
abbrev pub own_ops : ℕ → List Op → List Op
own_ops a [] = []
own_ops a (op ∷ ops) = let rest = own_ops a ops in if owned a op then op ∷ rest else rest

pub own_ops-append : (a : ℕ) (xs ys : List Op) → own_ops a (xs ++ ys) ≡ own_ops a xs ++ own_ops a ys
own_ops-append a [] ys = refl
own_ops-append a (x ∷ xs) ys = elim (Bool-cases (owned a x)) [
  | inl e ↦ rw e (ap (λ r. x ∷ r) (own_ops-append a xs ys))
  | inr e ↦ rw e (own_ops-append a xs ys)
]

-- The answer to a request that came as these bytes.
abbrev pub answer_to : Bytes → Bytes
answer_to bytes = processed (getline b'\n' [] (open_stream bytes)).0

-- Where a service is in its life: it waits for its request, it answers the bytes that it was sent, or
-- it was deleted.
pub data ServicePhase : Type 0 where
  reads : ServicePhase
  answers : Bytes → ServicePhase
  ended : ServicePhase

-- What a service is and waits for in each phase.
abbrev pub Stage : ℕ → ServicePhase → ServiceFakeAsync → List Op → Type 0
Stage a reads s waits = (waits ≡ read_until a ∷ []) × (s ≡ new_service)
Stage a (answers bytes) s waits = (waits ≡ write a (answer_to bytes) ∷ []) × (s.deletes ≡ 0)
Stage a ended s waits = (waits ≡ []) × (s.deletes ≡ 1)

abbrev pub StageOf : ℕ → ServicePhase → AsyncAcceptor → Type 0
StageOf a p c = Stage a p (c.services a) (own_ops a c.pending)

-- What holds of the service `a` in every state, before it is made and after.
abbrev pub Lives : ℕ → ServicePhase → AsyncAcceptor → Type 0
Lives a p c = (a < c.next → StageOf a p c) × (c.next ≤ a → (own_ops a c.pending ≡ []) × (p ≡ reads))

-- One operation more, of the service or not.
abbrev one_more : ℕ → Op → List Op → List Op
one_more a op ops = if owned a op then ops ++ op ∷ [] else ops

own_ops_last :
    (a : ℕ) (op : Op) (xs : List Op) → own_ops a (xs ++ op ∷ []) ≡ one_more a op (own_ops a xs)
own_ops_last a op xs = elim (Bool-cases (owned a op)) [
  | inl e ↦ own_ops-append a xs (op ∷ []) ∙ rw e refl
  | inr e ↦ own_ops-append a xs (op ∷ []) ∙ rw e (append-nil (own_ops a xs))
]

-- A service is seen to stay as it is.
same-Stage :
    (a : ℕ) (p : ServicePhase) (s t : ServiceFakeAsync) (ops ops' : List Op)
    → s ≡ t
    → ops ≡ ops'
    → Stage a p s ops
    → Stage a p t ops'
same-Stage a p s t ops ops' e e' h =
    subst (λ u. Stage a p u ops') e (subst (λ w. Stage a p s w) e' h)

-- `new ServiceType(socket)`: a new service reads, the others stay.
serve-Lives : (a : ℕ) (p : ServicePhase) (c : AsyncAcceptor) → Lives a p c → Lives a p (serve c)
unfolding serve start
serve-Lives a p c h = elim (Bool-cases (a == c.next)) [
  | inl e ↦
      let mine : (c.next == a) ≡ true = ground arith in
      let none_yet = h.1 (ground arith) in
      let waits : own_ops a (serve c).pending ≡ read_until a ∷ [] =
        own_ops_last a (read_until c.next) c.pending
        ∙ rw (mine, none_yet.0) (ap (λ x. read_until x ∷ []) (sym ((==_iff a c.next).0 e))) in
      (
        (λ lt. subst (λ q. StageOf a q (serve c)) (sym none_yet.1) (waits, rw e refl)),
        (λ le. absurd (ground arith)),
      )
  | inr e ↦
      let other : (c.next == a) ≡ false = ground arith in
      let kept : own_ops a (c.pending ++ read_until c.next ∷ []) ≡ own_ops a c.pending =
        own_ops_last a (read_until c.next) c.pending ∙ rw other refl in
      (
        (λ lt.
            same-Stage a p (c.services a) _ (own_ops a c.pending) _ (rw e refl) (sym kept)
              (h.0 (ground arith))),
        (λ le. let none_yet = h.1 (ground arith) in (kept ∙ none_yet.0, none_yet.1)),
      )
]

pub same_Lives :
    (a : ℕ) (p : ServicePhase) (c d : AsyncAcceptor)
    → d.next ≡ c.next
    → c.services a ≡ d.services a
    → own_ops a d.pending ≡ own_ops a c.pending
    → Lives a p c
    → Lives a p d
same_Lives a p c d n s w h = (
  (λ lt. same-Stage a p _ _ _ _ s (sym w) (h.0 (omega (arith, n, lt)))),
  (λ le. let none_yet = h.1 (omega (arith, n, le)) in (w ∙ none_yet.0, none_yet.1)),
)

go_on-Lives :
    (a : ℕ) (p : ServicePhase) (c : AsyncAcceptor)
    → Lives a p c
    → Lives a p (if c.stop_flag then record c { closes = c.closes + 1 } else init c)
unfolding init start
go_on-Lives a p c h = elim (Bool-cases c.stop_flag) [
  | inl e ↦ rw e h
  | inr e ↦ rw e (same_Lives a p c (init c) refl refl (own_ops_last a accept c.pending) h)
]

pub on_accept-Lives :
    (a : ℕ) (p : ServicePhase) (ec : ErrorCode) (c : AsyncAcceptor)
    → Lives a p c
    → Lives a p (on_accept ec c)
unfolding on_accept
on_accept-Lives a p ec c h = elim (Bool-cases (failed ec)) [
  | inl e ↦ rw e (go_on-Lives a p c h)
  | inr e ↦ rw e (go_on-Lives a p (serve c) (serve-Lives a p c h))
]

-- A handler of another service.
pub clean-other :
    (a : ℕ) (p : ServicePhase) (b : ℕ) (c : AsyncAcceptor)
    → (a == b) ≡ false
    → Lives a p c
    → Lives a p (clean b c)
unfolding clean
clean-other a p b c e h = same_Lives a p c (clean b c) refl (rw e refl) refl h

pub recieve-other :
    (a : ℕ) (p : ServicePhase) (b : ℕ) (ec : ErrorCode) (bytes : Bytes) (c : AsyncAcceptor)
    → (a == b) ≡ false
    → Lives a p c
    → Lives a p (recieve_request ec bytes b c)
unfolding recieve_request start
recieve-other a p b ec bytes c e h =
    let s = c.services b in
    let s' = process_request (record s { buffer = s.buffer ++ bytes }) in
    let apart : (b == a) ≡ false = ground arith in
    elim (Bool-cases (failed ec)) [
      | inl f ↦ rw f (clean-other a p b c e h)
      | inr f ↦ rw f (
          same_Lives a p c (start (write b s'.response) (put b s' c)) refl (rw e refl)
            (own_ops_last a (write b s'.response) c.pending ∙ rw apart refl) h)
    ]

-- A handler of the service itself, which waits for nothing else.
pub clean-Stage :
    (a : ℕ) (c : AsyncAcceptor)
    → own_ops a c.pending ≡ []
    → (c.services a).deletes ≡ 0
    → StageOf a ended (clean a c)
unfolding clean
clean-Stage a c none_left zero =
    let mine : (a == a) ≡ true = ground arith in (none_left, rw mine (ap (λ n. n + 1) zero))

pub recieve-Stage :
    (a : ℕ) (ec : ErrorCode) (bytes : Bytes) (c : AsyncAcceptor)
    → own_ops a c.pending ≡ []
    → c.services a ≡ new_service
    → StageOf a (if failed ec then ended else answers bytes) (recieve_request ec bytes a c)
unfolding recieve_request process_request start
recieve-Stage a ec bytes c none_left fresh =
    let mine : (a == a) ≡ true = ground arith in
    elim (Bool-cases (failed ec)) [
      | inl f ↦ rw f (clean-Stage a c none_left (ap (λ s. s.deletes) fresh))
      | inr f ↦ rw f (
        own_ops_last a _ c.pending
            ∙ rw (mine, none_left) (ap (λ s. write a (answer_to (s.buffer ++ bytes)) ∷ []) fresh),
        rw mine (ap (λ s. s.deletes) fresh),
      )
    ]
