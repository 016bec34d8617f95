-- ===== src/TcpServer/Separate.antt =====
-- asiolib/tcp-server-async.hpp: each handler takes its own service on, and no other.
use boost_asio_samples.Base.{
  ℕ, ◌<◌, ltb, ◌≡◌, refl, ap, sym, ◌∙◌, true, false, List, [], ◌∷◌, ◌++◌, Bytes, ◌==◌, ==_iff,
  if◌then◌else◌, arith, Bool-cases, inl, inr,
}
use mathlib.Core.Path.{subst}
use boost_asio_samples.Errors.{ErrorCode, failed}
use boost_asio_samples.TcpServer.Connections.{
  AsyncAcceptor, Op, accept, read_until, write, new_service, new_acceptor, start,
}
use boost_asio_samples.TcpServer.{init, stop, clean, recieve_request, send_answer}
use boost_asio_samples.TcpServer.Steps.{handle, stopping, complete, Run, here, next}
use boost_asio_samples.TcpServer.Balance.{owned, recieve-Adds}
use boost_asio_samples.TcpServer.Stages.{
  own_ops, own_ops-append, ServicePhase, reads, answers, ended, StageOf, Lives, same_Lives,
  on_accept-Lives, clean-other, recieve-other, clean-Stage, recieve-Stage,
}

-- What the end of an operation makes of the phase of the service `a`: its own read brought a request or
-- failed, its own write ended; nothing else counts.
abbrev pub after_op : ℕ → Op → ErrorCode → Bytes → ServicePhase → ServicePhase
after_op a accept ec bytes p = p
after_op a (read_until b) ec bytes p =
    if b == a then (if failed ec then ended else answers bytes) else p
after_op a (write b text) ec bytes p = if b == a then ended else p

-- The phase of the service after a run, from the ends of its own operations alone.
abbrev pub phase_after : ℕ → {c d : AsyncAcceptor} → Run c d → ServicePhase
phase_after a here = reads
phase_after a (next run (stopping e)) = phase_after a run
phase_after a (next run (complete pre post op ec bytes split e)) =
    after_op a op ec bytes (phase_after a run)

-- A list with one element, at the place of a given one.
append-one :
    {A : Type 0} (xs ys : List A) (x y : A)
    → xs ++ y ∷ ys ≡ x ∷ []
    → (xs ≡ []) × (y ≡ x) × (ys ≡ [])
append-one [] ys x y e = (refl, cc, cc)
append-one (z ∷ []) ys x y e = absurd cc
append-one (z ∷ w ∷ xs) ys x y e = absurd cc

append-none : {A : Type 0} (xs ys : List A) (y : A) → xs ++ y ∷ ys ≡ [] → ⊥
append-none [] ys y e = cc
append-none (z ∷ xs) ys y e = cc

module _ (a : ℕ) (pre post : List Op) (c : AsyncAcceptor) where
  -- The state while the handler of an operation runs.
  abbrev left : AsyncAcceptor
  left = record c { pending = pre ++ post }

  waits_own :
      (op : Op)
      → owned a op ≡ true
      → c.pending ≡ pre ++ op ∷ post
      → own_ops a c.pending ≡ own_ops a pre ++ op ∷ own_ops a post
  waits_own op e split = ap (own_ops a) split ∙ own_ops-append a pre (op ∷ post) ∙ rw e refl

  waits_other :
      (op : Op)
      → owned a op ≡ false
      → c.pending ≡ pre ++ op ∷ post
      → own_ops a (pre ++ post) ≡ own_ops a c.pending
  waits_other op e split =
      own_ops-append a pre post
      ∙ sym (ap (own_ops a) split ∙ own_ops-append a pre (op ∷ post) ∙ rw e refl)

  left-Lives :
      (p : ServicePhase) (op : Op)
      → owned a op ≡ false
      → c.pending ≡ pre ++ op ∷ post
      → Lives a p c
      → Lives a p left
  left-Lives p op e split h = same_Lives a p c left refl refl (waits_other op e split) h

  -- An operation of the service is the only one that waits for it.
  only_one :
      (op x : Op)
      → owned a op ≡ true
      → c.pending ≡ pre ++ op ∷ post
      → own_ops a c.pending ≡ x ∷ []
      → (op ≡ x) × (own_ops a (pre ++ post) ≡ [])
  only_one op x e split one =
      let parts =
        append-one (own_ops a pre) (own_ops a post) x op (sym (waits_own op e split) ∙ one) in
      (parts.1, own_ops-append a pre post ∙ rw (parts.0, parts.2) refl)

  has_one :
      (op : Op) → owned a op ≡ true → c.pending ≡ pre ++ op ∷ post → own_ops a c.pending ≡ [] → ⊥
  has_one op e split none_left =
      append-none (own_ops a pre) (own_ops a post) op (sym (waits_own op e split) ∙ none_left)

  -- The read is the first operation of a service, and nothing has changed it.
  read-fresh :
      (p : ServicePhase)
      → c.pending ≡ pre ++ read_until a ∷ post
      → StageOf a p c
      → (c.services a ≡ new_service) × (own_ops a (pre ++ post) ≡ [])
  read-fresh reads split h =
      (h.1, (only_one (read_until a) (read_until a) (ground arith) split h.0).1)
  read-fresh (answers bytes) split h =
      let same = (only_one (read_until a) _ (ground arith) split h.0).0 in absurd cc
  read-fresh ended split h = absurd (has_one (read_until a) (ground arith) split h.0)

  -- The write is the last operation of a service, which was not deleted before.
  write-last :
      (p : ServicePhase) (text : Bytes)
      → c.pending ≡ pre ++ write a text ∷ post
      → StageOf a p c
      → ((c.services a).deletes ≡ 0) × (own_ops a (pre ++ post) ≡ [])
  write-last reads text split h =
      let same = (only_one (write a text) _ (ground arith) split h.0).0 in absurd cc
  write-last (answers bytes) text split h =
      (h.1, (only_one (write a text) _ (ground arith) split h.0).1)
  write-last ended text split h = absurd (has_one (write a text) (ground arith) split h.0)

  -- An operation of a service is of one that was made.
  was_made :
      (p : ServicePhase) (op : Op)
      → owned a op ≡ true
      → c.pending ≡ pre ++ op ∷ post
      → Lives a p c
      → a < c.next
  was_made p op e split h = elim (Bool-cases (ltb a c.next)) [
    | inr unborn ↦ absurd (has_one op e split (h.1 (ground arith)).0)
    | inl born ↦ ground arith
  ]

  read-Lives :
      (p : ServicePhase) (ec : ErrorCode) (bytes : Bytes)
      → c.pending ≡ pre ++ read_until a ∷ post
      → Lives a p c
      → Lives a (if failed ec then ended else answers bytes) (recieve_request ec bytes a left)
  read-Lives p ec bytes split h =
      let lt = was_made p (read_until a) (ground arith) split h in
      let fresh = read-fresh p split (h.0 lt) in
      let same = (recieve-Adds a a ec bytes left).2 in
      (
        (λ _. recieve-Stage a ec bytes left fresh.1 fresh.0),
        (λ le. absurd (omega (arith, same, lt, le))),
      )

  write-Lives :
      (p : ServicePhase) (text : Bytes)
      → c.pending ≡ pre ++ write a text ∷ post
      → Lives a p c
      → Lives a ended (clean a left)
  unfolding clean
  write-Lives p text split h =
      let lt = was_made p (write a text) (ground arith) split h in
      let last = write-last p text split (h.0 lt) in
      ((λ _. clean-Stage a left last.1 last.0), (λ le. absurd (omega (arith, lt, le))))

  handle-Lives :
      (p : ServicePhase) (op : Op) (ec : ErrorCode) (bytes : Bytes)
      → c.pending ≡ pre ++ op ∷ post
      → Lives a p c
      → Lives a (after_op a op ec bytes p) (handle op ec bytes left)
  unfolding handle send_answer
  handle-Lives p accept ec bytes split h =
      on_accept-Lives a p ec left (left-Lives p accept refl split h)
  handle-Lives p (read_until b) ec bytes split h = elim (Bool-cases (b == a)) [
    | inl e ↦ rw e (
        subst
          (λ x.
            Lives a (if failed ec then ended else answers bytes) (recieve_request ec bytes x left))
          (sym ((==_iff b a).0 e))
          (read-Lives p ec bytes (split ∙ ap (λ x. pre ++ read_until x ∷ post) ((==_iff b a).0 e))
            h))
    | inr e ↦
        rw e
          (recieve-other a p b ec bytes left (ground arith) (left-Lives p (read_until b) e split h))
  ]
  handle-Lives p (write b text) ec bytes split h = elim (Bool-cases (b == a)) [
    | inl e ↦ rw e (
        subst (λ x. Lives a ended (clean x left)) (sym ((==_iff b a).0 e))
          (write-Lives p text (split ∙ ap (λ x. pre ++ write x text ∷ post) ((==_iff b a).0 e)) h))
    | inr e ↦ rw e (clean-other a p b left (ground arith) (left-Lives p (write b text) e split h))
  ]

run-Lives :
    (a : ℕ) {c d : AsyncAcceptor}
    → Lives a reads c
    → (run : Run c d) → Lives a (phase_after a run) d
unfolding stop
run-Lives a h here = h
run-Lives a h (next run (stopping e)) =
    subst (Lives a (phase_after a run)) (sym e) (run-Lives a h run)
run-Lives a h (next {d = c} run (complete pre post op ec bytes split e)) =
    subst (Lives a (phase_after a (next run (complete pre post op ec bytes split e)))) (sym e)
      (handle-Lives a pre post c (phase_after a run) op ec bytes split (run-Lives a h run))

-- From the start of an acceptor, whatever the network does and whenever it is stopped, the service of
-- every accepted connection is what the ends of its own operations alone make it: while its read has
-- not ended it is as it was made and waits only for this read; after a read that brought bytes it
-- waits only for one write, of the answer to these bytes, and was not deleted; after a failed
-- read or the end of its write it waits for nothing and was deleted once.
pub run_stages :
    (c : AsyncAcceptor) (a : ℕ) (run : Run (init new_acceptor) c)
    → a < c.next
    → StageOf a (phase_after a run) c
unfolding init start
run_stages c a run lt =
    let none_yet : Lives a reads (init new_acceptor) =
      ((λ m. absurd (ground arith)), (λ le. (refl, refl))) in
    (run-Lives a none_yet run).0 lt
