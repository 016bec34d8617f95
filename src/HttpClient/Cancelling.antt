-- ===== src/HttpClient/Cancelling.antt =====
-- asiolib/http-client-async.hpp: what `cancel` stops, over all that may follow it.
use mathlib.Core.Path.{subst}
use boost_asio_samples.Base.{
  ℕ, suc, ◌+◌, true, List, [], ◌∷◌, ◌++◌, ◌≡◌, ◌≢◌, inl, inr, refl, ap, All, All-append, All-middle,
  append_assoc, append-nil, sym, ◌∙◌, length, length-append, arith,
}
use boost_asio_samples.Errors.{failed, AsioError}
use boost_asio_samples.HttpClient.Request.{HttpRequest, Call, Op, read_all, cancel}
use boost_asio_samples.HttpClient.Steps.{Event, handle, Meanwhile, cancelling, requests}
use boost_asio_samples.Operations.{Run, here, complete, meanwhile}
use boost_asio_samples.HttpClient.Quiet.{handle-Stops, handle-Fails}

module _ (asio : AsioError) where
  -- What a run from a cancelled request has come to.
  record Cancelled (r s : HttpRequest) (k : ℕ) : Type 0 where
    made : List Call
    flag : s.was_cancelled ≡ true
    waits : All (λ op. op ≢ read_all) s.pending
    fewer : length s.pending + k ≡ length r.pending
    calls_are : s.calls ≡ r.calls ++ made
    all_failed : All (λ c. failed c.ec ≡ true) made

  Cancelled-complete :
      (r s : HttpRequest) (k : ℕ) (pre post : List Op) (op : Op) (e : Event)
      → Cancelled r s k
      → s.pending ≡ pre ++ op ∷ post
      → Cancelled r (handle asio op e (record s { pending = pre ++ post })) (suc k)
  Cancelled-complete r s k pre post op e c split =
      let t = record s { pending = pre ++ post } in
      let stops = handle-Stops asio op e t c.flag in
      let (ne, others) =
        All-middle (λ o. o ≢ read_all) pre op post
          (subst (All (λ o. o ≢ read_all)) split c.waits) in
      let waits : All (λ o. o ≢ read_all) (handle asio op e t).pending =
        subst (All (λ o. o ≢ read_all)) (sym stops.0) others in
      let fewer : length (handle asio op e t).pending + suc k ≡ length r.pending = omega (
        arith,
        c.fewer,
        ap length split,
        ap length stops.0,
        length-append pre (op ∷ post),
        length-append pre post,
      ) in
      elim (handle-Fails asio op e t c.flag ne) [
        | inl same ↦ record {
          made = c.made;
          flag = stops.1 ∙ c.flag;
          waits = waits;
          fewer = fewer;
          calls_are = same ∙ c.calls_are;
          all_failed = c.all_failed;
        }
        | inr (call, one, bad) ↦ record {
          made = c.made ++ call ∷ [];
          flag = stops.1 ∙ c.flag;
          waits = waits;
          fewer = fewer;
          calls_are =
              one
              ∙ ap (λ cs. cs ++ call ∷ []) c.calls_are
              ∙ append_assoc r.calls c.made (call ∷ []);
          all_failed =
              All-append (λ c'. failed c'.ec ≡ true) c.made (call ∷ []) c.all_failed (bad, tt);
        }
      ]

  Cancelled-Meanwhile :
      {r s t : HttpRequest} {k : ℕ} → Meanwhile asio s t → Cancelled r s k → Cancelled r t k
  unfolding cancel
  Cancelled-Meanwhile {r} {k = k} (cancelling is_open e) c =
      subst (λ u. Cancelled r u k) (sym e)
        (record {
          made = c.made;
          flag = refl;
          waits = c.waits;
          fewer = c.fewer;
          calls_are = c.calls_are;
          all_failed = c.all_failed;
        })

  Cancelled-Run :
      {r s : HttpRequest} {k : ℕ}
      → r.was_cancelled ≡ true
      → All (λ op. op ≢ read_all) r.pending
      → Run (requests asio) r k s
      → Cancelled r s k
  Cancelled-Run {r} h w here = record {
    made = [];
    flag = h;
    waits = w;
    fewer = omega arith;
    calls_are = sym (append-nil r.calls);
    all_failed = tt;
  }
  Cancelled-Run {r} h w (complete {k = k} {s = s} run pre post op e alive split t) =
      subst (λ u. Cancelled r u (suc k)) (sym t)
        (Cancelled-complete r s k pre post op e (Cancelled-Run h w run) split)
  Cancelled-Run h w (meanwhile run step) = Cancelled-Meanwhile step (Cancelled-Run h w run)

  -- Once a request is cancelled while it does not wait for its last read, no operation is started any
  -- more, and the callback, if it is called, is given an error: in a run with `k` completions `k` operations fewer
  -- wait, and the calls that were made all carry a code of failure.
  pub cancelled-Run :
      (r s : HttpRequest) (k : ℕ)
      → r.was_cancelled ≡ true
      → All (λ op. op ≢ read_all) r.pending
      → Run (requests asio) r k s
      → (made : List Call) × (length s.pending + k ≡ length r.pending)
        × (s.calls ≡ r.calls ++ made)
        × All (λ c. failed c.ec ≡ true) made
  cancelled-Run r s k h w run =
      let c = Cancelled-Run h w run in (c.made, c.fewer, c.calls_are, c.all_failed)
