-- ===== src/TcpServer/Stopping.antt =====
-- asiolib/tcp-server-async.hpp: what is served after `Stop`.
use boost_asio_samples.Base.{
  ℕ, ◌+◌, ◌≤◌, ◌≡◌, refl, ap, sym, ◌∙◌, Bool, true, [], ◌∷◌, ◌++◌, Bytes, if◌then◌else◌, arith,
  Bool-cases, inl, inr, count, count-append, Without,
}
use mathlib.Core.Path.{subst}
use boost_asio_samples.Errors.{ErrorCode, failed, success}
use boost_asio_samples.Stream.{IStream, open_stream, getline}
use boost_asio_samples.Stream.Reads.{getline-append}
use boost_asio_samples.TcpServer.Connections.{
  AsyncAcceptor, Op, accept, read_until, write, new_acceptor, start,
}
use boost_asio_samples.TcpServer.{
  init, stop, serve, on_accept, clean, process_request, processed, recieve_request, send_answer,
}
use boost_asio_samples.TcpServer.Steps.{handle, stopping, complete, Run, here, next}
use boost_asio_samples.TcpServer.Balance.{is_accept, accept-Balanced}

-- The connections that were accepted, and the one that may still come.
abbrev connections : AsyncAcceptor → ℕ
connections c = c.next + count is_accept c.pending

abbrev one : Bool → ℕ
one b = if b then 1 else 0

serve_stopped :
    (c : AsyncAcceptor)
    → ((serve c).stop_flag ≡ c.stop_flag) × (connections (serve c) ≡ connections c + 1)
unfolding serve start
serve_stopped c = (refl, omega (arith, count-append is_accept c.pending (read_until c.next ∷ [])))

accept_stopped :
    (ec : ErrorCode) (c : AsyncAcceptor)
    → c.stop_flag ≡ true
    → ((on_accept ec c).stop_flag ≡ true) × (connections (on_accept ec c) ≤ connections c + 1)
unfolding on_accept
accept_stopped ec c h = elim (Bool-cases (failed ec)) [
  | inl e ↦ rw (e, h) (refl, omega arith)
  | inr e ↦ let s = serve_stopped c in let h' = s.0 ∙ h in rw (e, h') (refl, omega (arith, s.1))
]

clean_stopped :
    (a : ℕ) (c : AsyncAcceptor)
    → ((clean a c).stop_flag ≡ c.stop_flag) × (connections (clean a c) ≡ connections c)
unfolding clean
clean_stopped a c = (refl, refl)

recieve_stopped :
    (ec : ErrorCode) (bytes : Bytes) (a : ℕ) (c : AsyncAcceptor)
    → ((recieve_request ec bytes a c).stop_flag ≡ c.stop_flag)
      × (connections (recieve_request ec bytes a c) ≡ connections c)
unfolding recieve_request start
recieve_stopped ec bytes a c = elim (Bool-cases (failed ec)) [
  | inl e ↦ rw e (clean_stopped a c)
  | inr e ↦ rw e (refl, omega (arith, count-append is_accept c.pending (write a _ ∷ [])))
]

handle_stopped :
    (op : Op) (ec : ErrorCode) (bytes : Bytes) (c : AsyncAcceptor)
    → c.stop_flag ≡ true
    → ((handle op ec bytes c).stop_flag ≡ true)
      × (connections (handle op ec bytes c) ≤ connections c + one (is_accept op))
unfolding handle send_answer
handle_stopped accept ec bytes c h = accept_stopped ec c h
handle_stopped (read_until a) ec bytes c h =
    let r = recieve_stopped ec bytes a c in (r.0 ∙ h, omega (arith, r.1))
handle_stopped (write a t) ec bytes c h = let r = clean_stopped a c in (r.0 ∙ h, omega (arith, r.1))

Run-stopped :
    {c d : AsyncAcceptor}
    → c.stop_flag ≡ true
    → Run c d
    → (d.stop_flag ≡ true) × (connections d ≤ connections c)
unfolding stop
Run-stopped h here = (h, omega arith)
Run-stopped {c = c} h (next run (stopping e)) =
    subst (λ t. (t.stop_flag ≡ true) × (connections t ≤ connections c)) (sym e)
      (refl, (Run-stopped h run).1)
Run-stopped {c = c} h (next {d = d} run (complete pre post op ec bytes split e)) =
    let before = Run-stopped h run in
    let r = handle_stopped op ec bytes (record d { pending = pre ++ post }) before.0 in
    subst (λ t. (t.stop_flag ≡ true) × (connections t ≤ connections c)) (sym e)
      (
        r.0,
        omega (
          arith,
          r.1,
          before.1,
          count-append is_accept pre post,
          count-append is_accept pre (op ∷ post),
          ap (count is_accept) split,
        ),
      )

-- Once an acceptor that was started is stopped, it serves at most one connection more, the one that it
-- waited for, and it stays stopped.
pub stopped_serves_one :
    (c d : AsyncAcceptor)
    → Run (init new_acceptor) c
    → Run (stop c) d
    → (d.stop_flag ≡ true) × (d.next ≤ c.next + 1)
unfolding stop
stopped_serves_one c d start_run run =
    let r = Run-stopped refl run in
    let b = accept-Balanced c 0 start_run in (r.0, omega (arith, r.1, b.0))

-- A request that comes as one line is answered by that line behind a fixed text, whatever follows it.
pub request_answered :
    (a : ℕ) (line more : Bytes) (c : AsyncAcceptor)
    → (c.services a).buffer ≡ []
    → Without b'\n' line
    → (handle (read_until a) success (line ++ b'\n' ∷ more) c).pending
      ≡ c.pending ++ write a (processed line) ∷ []
unfolding handle recieve_request start process_request
request_answered a line more c empty plain =
    let s = c.services a in
    let text : getline b'\n' [] (open_stream (s.buffer ++ (line ++ b'\n' ∷ more)))
        ≡ (line, open_stream more) =
      ap (λ b. getline b'\n' [] (open_stream (b ++ (line ++ b'\n' ∷ more)))) empty
      ∙ getline-append b'\n' [] line more plain in
    ap (λ (p : Bytes × IStream). c.pending ++ write a (processed p.0) ∷ []) text
