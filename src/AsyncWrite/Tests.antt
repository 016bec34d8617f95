-- ===== src/AsyncWrite/Tests.antt =====
-- The test cancel_async of basics/server-client.cpp, on Windows.
use boost_asio_samples.Base.{◌≡◌, refl, Bytes, codes, lt_wf}
use native.Mathlib.Decide.{dec_lt}
use boost_asio_samples.Decimal.{to_string}
use boost_asio_samples.Errors.{ErrorCode, success, windows}
use boost_asio_samples.IoBuffers.Calls.{runtime_error}
use boost_asio_samples.Setup.Tried.{returns, throws}
use boost_asio_samples.AsyncWrite.{
  texts, numbers, aborted_text, callback, callback2, write_async, run_written,
}

abbrev message : ErrorCode → Bytes
message ec =
    codes
      "The I/O operation has been aborted because of either a thread exit or an application request"

abbrev request : Bytes
request = codes "ccc"

cancelled_read :
    run_written windows message 0 0 request success 3 windows.operation_aborted 0
    ≡ returns (texts aborted_text aborted_text)
unfolding run_written write_async callback callback2 to_string lt_wf dec_lt
cancelled_read = refl

-- Fewer bytes arrive than the test compares with.
short_read : run_written windows message 0 1 request success 3 success 3 ≡ returns (numbers 1024 3)
unfolding run_written write_async callback callback2
short_read = refl

failed_write :
    run_written windows (λ e. codes "End of file") 0 1 request windows.eof 0 success 3
    ≡ throws (runtime_error (codes "Error occured! Error code = 2. Message: End of file"))
unfolding run_written write_async callback callback2 to_string lt_wf dec_lt
failed_write = refl
