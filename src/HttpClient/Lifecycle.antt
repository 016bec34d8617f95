-- ===== src/HttpClient/Lifecycle.antt =====
-- asiolib/http-client-async.hpp: the runs of a request from `execute`, counted.
use boost_asio_samples.Base.{ℕ, ◌+◌, ◌≤◌, ◌<◌, [], ◌≡◌, refl, ap, length, arith}
use boost_asio_samples.Errors.{AsioError}
use boost_asio_samples.Operations.{OneOutcome, Run, Run-outcomes, ranks}
use boost_asio_samples.HttpClient.Request.{
  HttpRequest, Op, resolve, read_until, status_line_received, headers_received, running, cancel,
}
use boost_asio_samples.HttpClient.{execute}
use boost_asio_samples.HttpClient.Outcomes.{execute-Adds, handle-Adds}
use boost_asio_samples.HttpClient.Steps.{ended, rank, Meanwhile, cancelling, requests}

rank_pos : (op : Op) → 0 < rank op
rank_pos (resolve host service) = omega arith
rank_pos (read_until d status_line_received) = omega arith
rank_pos (read_until d headers_received) = omega arith
rank_pos _ = omega arith

module _ (asio : AsioError) where
  pending-Meanwhile : {s t : HttpRequest} → Meanwhile asio s t → t.pending ≡ s.pending
  unfolding cancel
  pending-Meanwhile (cancelling is_open e) = ground arith

  ends-Meanwhile :
      {s t : HttpRequest}
      → Meanwhile asio s t
      → length t.calls + ended t.fate ≡ length s.calls + ended s.fate
  unfolding cancel
  ends-Meanwhile (cancelling is_open e) = ground arith

  requests-OneOutcome : OneOutcome (requests asio)
  requests-OneOutcome = record {
    rank_pos = rank_pos;
    pending-leave = λ s ops. refl;
    ends-leave = λ s ops. refl;
    Running-leave = λ s ops h. h;
    handle_one = λ op e s h. (handle-Adds asio op e s h).0;
    handle_rank = λ op e s h. (handle-Adds asio op e s h).1;
    meanwhile_pending = pending-Meanwhile;
    meanwhile_ends = ends-Meanwhile;
  }

  -- From `execute` on a new request, whatever the network and a cancelling thread do, the request is always in one of
  -- three positions: it waits for one operation, or it has called the callback once, or a handler
  -- did not return. No more than six operations are made, those that wait included.
  pub execute-outcomes :
      (r s : HttpRequest) (k : ℕ)
      → r.fate ≡ running
      → r.pending ≡ []
      → r.calls ≡ []
      → Run (requests asio) (execute asio r) k s
      → (length s.pending + (length s.calls + ended s.fate) ≡ 1) × (length s.pending + k ≤ 6)
  execute-outcomes r s k alive idle fresh run =
      let started = execute-Adds asio r alive in
      Run-outcomes (requests asio) requests-OneOutcome (execute asio r) s k 6
        (omega (arith, started, ap length idle, ap length fresh, ap ended alive))
        (omega (arith, started, ap (ranks rank) idle)) run
