-- ===== src/HttpClient/ClosingTests.antt =====
-- An HTTP client with one request whose host is not found, and which is closed meanwhile.
use boost_asio_samples.Base.{◌≡◌, refl, [], ◌∷◌, All, true, false, none, codes, lt_wf}
use native.Mathlib.Decide.{dec_lt}
use boost_asio_samples.Decimal.{to_string}
use boost_asio_samples.Errors.{windows}
use boost_asio_samples.HttpClient.Request.{
  HttpRequest, resolve, create_request, set_host, set_uri, set_callback, start, on_finish,
  call_back, running,
}
use boost_asio_samples.HttpClient.{execute, unless_cancelled, on_host_name_resolved}
use boost_asio_samples.HttpClient.Steps.{Event, handle}
use boost_asio_samples.HttpClient.Closing.{
  HttpClient, joined, new_http_client, close, join, executes, closes, joins, completes, leaves,
  Schedule, at_start, later, IsOver, http_closed-IsOver,
}

abbrev request : HttpRequest
request =
    set_uri (codes "index.html") (set_callback 7 (set_host (codes "localhost") (create_request 1)))

unfoldable waiting : HttpRequest
waiting = execute windows request

abbrev not_found : Event
not_found = record { ec = windows.eof; bytes = []; shutdown = none }

unfoldable told : HttpRequest
told =
    handle windows (resolve (codes "localhost") (codes "80")) not_found
      (record waiting { pending = [] })

abbrev closed : HttpClient
closed = record { requests = told ∷ []; work = false; thread = joined; closing = true }

waits : waiting.pending ≡ resolve (codes "localhost") (codes "80") ∷ []
unfolding waiting execute unless_cancelled start create_request to_string lt_wf dec_lt
waits = refl

lives : waiting.fate ≡ running
unfolding waiting execute unless_cancelled start create_request
lives = refl

told_over : (told.pending ≡ []) × (told.fate ≡ running)
unfolding told waiting execute unless_cancelled start create_request handle on_host_name_resolved
    on_finish call_back
told_over = (refl, refl)

schedule : Schedule windows new_http_client closed
unfolding close join told waiting create_request
schedule =
    later
      (later
        (later
          (later (later at_start (executes request (refl, refl, refl) refl refl))
            (closes refl refl))
          (completes [] [] waiting [] [] (resolve (codes "localhost") (codes "80")) not_found refl
            (lives, tt) refl waits refl))
        (leaves refl refl (told_over, tt) refl))
      (joins refl refl)

http_closed-IsOver_example : All IsOver (told ∷ [])
http_closed-IsOver_example = http_closed-IsOver windows closed schedule refl
