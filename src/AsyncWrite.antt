-- ===== src/AsyncWrite.antt =====
-- asiolib/io_buffers.hpp: `WriteAsync`; basics/server-client.cpp: its callback, which starts a read, and
-- the callback of that read. A callback that throws ends the run of the `io_context`.
mod Tests
use boost_asio_samples.Base.{
  arith, ℕ, ◌≡◌, ◌↔◌, refl, Bool, true, false, not, ◌&&◌, ◌||◌, List, [], ◌∷◌, ◌++◌, Bytes, codes,
  ◌==◌, if◌then◌else◌, inl, inr, Bool-cases,
}
use boost_asio_samples.Errors.{ErrorCode, AsioError, failed, error_code_eq}
use boost_asio_samples.IoBuffers.Calls.{Exception, runtime_error}
use boost_asio_samples.Setup.Tried.{Tried as Attempt, returns, throws, ◌>>=◌}
use boost_asio_samples.Decimal.{to_string}
use boost_asio_samples.TcpClient.{int_text}

-- An `async_write`: on which socket, of which bytes, and what runs when it ends.
pub record Write (T : Type 0) : Type 0 where
  pub socket : ℕ
  pub bytes : Bytes
  pub handler : ErrorCode → ℕ → Attempt T

-- An `async_read` into a buffer of `size` bytes.
pub record Read : Type 0 where
  pub socket : ℕ
  pub size : ℕ

-- What a test compares: `EXPECT_EQ` of two texts or of two numbers.
pub data Expectation : Type 0 where
  texts : Bytes → Bytes → Expectation
  numbers : ℕ → ℕ → Expectation

-- `WriteAsync`: the callback is bound to the socket of the receiver.
unfoldable pub write_async :
    {T : Type 0} → (sender receiver : ℕ) → Bytes → (ErrorCode → ℕ → ℕ → Attempt T) → Write T
write_async sender receiver buffer callback = record {
  socket = sender;
  bytes = buffer;
  handler = λ ec transferred. callback ec transferred receiver;
}

-- The text that `Callback2` expects of a cancelled read.
abbrev pub aborted_text : Bytes
aborted_text =
    codes "995: The I/O operation has been aborted because of "
    ++ codes "either a thread exit or an application request"

-- How the write and the read of one run end, and how many bytes they moved.
pub record Completions : Type 0 where
  pub wrote : ErrorCode
  pub sent : ℕ
  pub got : ErrorCode
  pub read : ℕ

-- The text of an error code is not of this library.
module _ (asio : AsioError) (message : ErrorCode → Bytes) where
  abbrev pub occured : ErrorCode → Bytes
  occured ec =
      codes "Error occured! Error code = "
      ++ (int_text ec.value ++ (codes ". Message: " ++ message ec))

  abbrev pub printed : ErrorCode → Bytes
  printed ec = int_text ec.value ++ (codes ": " ++ message ec)

  -- `Callback`
  unfoldable pub callback : ErrorCode → ℕ → ℕ → Attempt Read
  callback ec bytes_transferred socket =
      if failed ec
      then throws (runtime_error (occured ec))
      else returns (record { socket = socket; size = 1024 })

  -- `Callback2`: the comparison that it makes.
  unfoldable pub callback2 : ErrorCode → ℕ → Attempt Expectation
  callback2 ec bytes_transferred =
      if failed ec
      then if error_code_eq ec asio.operation_aborted
        then returns (texts aborted_text (printed ec))
        else throws (runtime_error (occured ec))
      else returns (numbers 1024 bytes_transferred)

  -- The run of `ioc` after `WriteAsync`: the write ends with `wrote`, and the read that it starts with
  -- `got`.
  unfoldable pub run_written :
      (sender receiver : ℕ)
      → Bytes
      → (wrote : ErrorCode) (sent : ℕ) (got : ErrorCode) (read : ℕ) → Attempt Expectation
  run_written sender receiver buffer wrote sent got read = do
    started ← (write_async sender receiver buffer callback).handler wrote sent
    callback2 got read

  unfoldable pub read_write_async : (server client : ℕ) → Bytes → Completions → Attempt Expectation
  read_write_async server client msg r = run_written server client msg r.wrote r.sent r.got r.read

  -- The second run is that of a thread of its own, which an exception ends with the program; there the
  -- socket of the server is both the sender and the receiver, and its read is cancelled.
  unfoldable pub cancel_async :
      (server client : ℕ) → Bytes → Completions → Completions → Attempt (List Expectation)
  cancel_async server client msg r r' = do
    first ← run_written server client msg r.wrote r.sent r.got r.read
    second ← run_written server server msg r'.wrote r'.sent r'.got r'.read
    returns (first ∷ second ∷ [])

  -- Whether the run ends by an exception: a cancelled read does not end it.
  abbrev pub ends_run : ErrorCode → ErrorCode → Bool
  ends_run wrote got =
      failed wrote || (failed got && not (error_code_eq got asio.operation_aborted))

  -- Where the write failed, or the read failed and was not cancelled, the run throws the code and the
  -- text of the first error; the read is not begun where the write failed.
  pub run_written_throws :
      (sender receiver : ℕ) (buffer : Bytes) (wrote : ErrorCode) (sent : ℕ) (got : ErrorCode)
      (read : ℕ)
      → ends_run wrote got ≡ true
      → run_written sender receiver buffer wrote sent got read
        ≡ throws (runtime_error (occured (if failed wrote then wrote else got)))
  unfolding run_written callback callback2 write_async
  run_written_throws sender receiver buffer wrote sent got read h =
      elim (Bool-cases (failed wrote)) [
        | inl e ↦ rw e refl
        | inr e ↦
            let both : failed got && not (error_code_eq got asio.operation_aborted) ≡ true =
              ground arith in
            let fails : failed got ≡ true = ground arith in
            let other : error_code_eq got asio.operation_aborted ≡ false = ground arith in
            rw (e, fails, other) refl
      ]

  -- Where the write succeeded and the read was cancelled, the run compares the text of the cancellation
  -- with the one that Windows gives; where both succeeded, the number of bytes with the buffer's size.
  pub run_written_compares :
      (sender receiver : ℕ) (buffer : Bytes) (wrote : ErrorCode) (sent : ℕ) (got : ErrorCode)
      (read : ℕ)
      → ends_run wrote got ≡ false
      → run_written sender receiver buffer wrote sent got read
        ≡ returns (if failed got then texts aborted_text (printed got) else numbers 1024 read)
  unfolding run_written callback callback2 write_async
  run_written_compares sender receiver buffer wrote sent got read h =
      let wrote_well : failed wrote ≡ false = ground arith in
      elim (Bool-cases (failed got)) [
        | inr e ↦ rw (wrote_well, e) refl
        | inl e ↦
            let aborted : error_code_eq got asio.operation_aborted ≡ true = ground arith in
            rw (wrote_well, e, aborted) refl
      ]
