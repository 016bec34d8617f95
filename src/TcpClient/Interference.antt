-- ===== src/TcpClient/Interference.antt =====
-- asiolib/tcp-client-async.hpp: the sessions of a client do not interfere.
use boost_asio_samples.Base.{
  ℕ, ◌+◌, ◌<◌, ◌≤◌, ◌≡◌, refl, ap, sym, ◌∙◌, true, false, Option, none, some, List, [], ◌∷◌, ◌++◌,
  Bytes, ◌==◌, ==_iff, if◌then◌else◌, Bool-cases, inl, inr, append-nil, arith,
}
use mathlib.Core.Path.{subst}
use boost_asio_samples.Errors.{ErrorCode, AsioError}
use boost_asio_samples.Dict.{nat_eq, lookup}
use boost_asio_samples.TcpClient.Sessions.{AsyncTcpClient, Op, connect, start}
use boost_asio_samples.TcpClient.{
  emulate_long_computation_op, cancel_request, cancel_session, on_request_complete,
}
use boost_asio_samples.TcpClient.Steps.{handle, Step, begin, cancel, complete, Run, here, next}
use boost_asio_samples.TcpClient.Once.{address}
use boost_asio_samples.TcpClient.Local.{LocalEffect, goes_on, ends, effect_of, apply, handle_lem}
use boost_asio_samples.TcpClient.Seen.{
  Seen, seen, own_ops, own_ops-append, same_seen, IsOwn, effect-IsOwn, moved, Move, stays,
  is_cancelled, completes, Life, born, lives, own_effect, other_effect,
}

module _ (asio : AsioError) where
  unmoved : (a : ℕ) (v w : Seen) → w ≡ v → Move asio a v w
  unmoved a v w e = subst (Move asio a v) (sym e) stays

  begin_seen :
      (a : ℕ) (thrown : Option ErrorCode) (duration : ℕ) (ip : Bytes) (port callback id : ℕ)
      (c : AsyncTcpClient)
      → a < c.next
      → seen a (emulate_long_computation_op thrown duration ip port callback id c) ≡ seen a c
  unfolding emulate_long_computation_op start
  begin_seen a (some e) duration ip port callback id c old = refl
  begin_seen a none duration ip port callback id c old =
      let apart : (a == c.next) ≡ false = ground arith in
      let apart' : (c.next == a) ≡ false = ground arith in
      same_seen _ _ (rw apart refl)
        (own_ops-append a c.pending (connect c.next ∷ [])
          ∙ rw apart' (append-nil (own_ops a c.pending)))
        refl

  cancel_moves :
      (a : ℕ) (o : Option ℕ) (c : AsyncTcpClient)
      → Move asio a (seen a c) (seen a (cancel_session o c))
  unfolding cancel_session
  cancel_moves a none c = stays
  cancel_moves a (some b) c = elim (Bool-cases (a == b)) [
    | inr e ↦ unmoved a _ _ (same_seen _ _ (rw e refl) refl refl)
    | inl e ↦
        let same : a ≡ b = (==_iff a b).0 e in
        is_cancelled (
          same_seen _ _
            (rw e (
              ap
                (λ x. record (c.sessions x) {
                  was_cancelled = true;
                  cancels = (c.sessions x).cancels + 1;
                })
                (sym same)))
            refl refl)
  ]

  -- What waits for a session where one operation is taken out.
  own_ops-middle :
      (a : ℕ) (pre post : List Op) (op : Op)
      → own_ops a (pre ++ op ∷ post)
        ≡ own_ops a pre ++ (if address op == a then op ∷ own_ops a post else own_ops a post)
  own_ops-middle a pre post op = own_ops-append a pre (op ∷ post)

  handle_moves :
      (a : ℕ) (pre post : List Op) (op : Op) (ec : ErrorCode) (bytes : Bytes) (c : AsyncTcpClient)
      → c.pending ≡ pre ++ op ∷ post
      → Move asio a
          (seen a c)
          (seen a (handle asio op ec bytes (record c { pending = pre ++ post })))
  handle_moves a pre post op ec bytes c split =
      let left = record c { pending = pre ++ post } in
      let b = address op in
      let f = effect_of op ec bytes (c.sessions b) in
      let own = effect-IsOwn op ec bytes (c.sessions b) in
      let does = ap (seen a) (handle_lem asio op ec bytes left) in
      let waits = ap (own_ops a) split ∙ own_ops-middle a pre post op in
      let rest = own_ops-append a pre post in
      elim (Bool-cases (b == a)) [
        | inr e ↦ unmoved a _ _ (
            does
            ∙ other_effect asio a b f left own e
            ∙ same_seen (seen a c) (seen a left) refl (rest ∙ sym (rw e at waits)) refl)
        | inl e ↦
            let same : b ≡ a = (==_iff b a).0 e in
            let effect = λ (x : ℕ). effect_of op ec bytes (c.sessions x) in
            completes op ec bytes (own_ops a pre) (own_ops a post) (rw e at waits) (
              does
              ∙ ap (λ x. seen a (apply asio x (effect x) left)) same
              ∙ own_effect asio a (effect a) left (subst (λ x. IsOwn x (effect x)) same own)
              ∙ ap (λ w. moved asio a (effect a) (record (seen a left) { waits = w })) rest)
      ]

  step_moves :
      (a : ℕ) {c d : AsyncTcpClient}
      → Step asio c d
      → a < c.next
      → Move asio a (seen a c) (seen a d)
  unfolding cancel_request
  step_moves a {c} (begin thrown duration ip port callback id e) old =
      unmoved a _ _ (ap (seen a) e ∙ begin_seen a thrown duration ip port callback id c old)
  step_moves a {c} (cancel id e) old =
      subst (λ d. Move asio a (seen a c) (seen a d)) (sym e) (cancel_moves a (lookup id c.active) c)
  step_moves a {c} (complete pre post op ec bytes split e) old =
      subst (λ d. Move asio a (seen a c) (seen a d)) (sym e)
        (handle_moves a pre post op ec bytes c split)

  apply_next : (b : ℕ) (f : LocalEffect) (c : AsyncTcpClient) → (apply asio b f c).next ≡ c.next
  unfolding start on_request_complete
  apply_next b (goes_on op) c = refl
  apply_next b (ends s) c = refl

  begin_next :
      (thrown : Option ErrorCode) (duration : ℕ) (ip : Bytes) (port callback id : ℕ)
      (c : AsyncTcpClient)
      → c.next ≤ (emulate_long_computation_op thrown duration ip port callback id c).next
  unfolding emulate_long_computation_op start
  begin_next (some e) duration ip port callback id c = omega arith
  begin_next none duration ip port callback id c = omega arith

  cancel_next : (o : Option ℕ) (c : AsyncTcpClient) → (cancel_session o c).next ≡ c.next
  unfolding cancel_session
  cancel_next none c = refl
  cancel_next (some b) c = refl

  -- No session is forgotten.
  step_next : {c d : AsyncTcpClient} → Step asio c d → c.next ≤ d.next
  unfolding cancel_request
  step_next {c} (begin thrown duration ip port callback id e) =
      subst (λ (d : AsyncTcpClient). c.next ≤ d.next) (sym e)
        (begin_next thrown duration ip port callback id c)
  step_next {c} (cancel id e) =
      omega (arith, ap (λ (d : AsyncTcpClient). d.next) e, cancel_next (lookup id c.active) c)
  step_next {c} (complete pre post op ec bytes split e) =
      let left = record c { pending = pre ++ post } in
      let same = e ∙ handle_lem asio op ec bytes left in
      omega (
        arith,
        ap (λ (d : AsyncTcpClient). d.next) same,
        apply_next (address op) (effect_of op ec bytes (left.sessions (address op))) left,
      )

  begun_before : (a : ℕ) (c d : AsyncTcpClient) → a < c.next → Run asio c d → a < d.next
  begun_before a c d old here = old
  begun_before a c d old (next {d = m} run step) =
      omega (arith, begun_before a c m old run, step_next step)

  -- Once a session was begun, every run of the client is for it a life of that session alone. Its own
  -- members decide what the completion of one of its operations does to them, to what waits for it and
  -- to its callback; nothing else happens to it but being cancelled, whatever other sessions do.
  pub run_lives :
      (a : ℕ) (c d : AsyncTcpClient) → a < c.next → Run asio c d → Life asio a (seen a c) (seen a d)
  run_lives a c d old here = born
  run_lives a c d old (next {d = m} run step) =
      lives (run_lives a c m old run) (step_moves a step (begun_before a c m old run))
