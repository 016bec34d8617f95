-- ===== src/Setup/Machine.antt =====
-- A system on which every call of Asio succeeds, for the tests.
use boost_asio_samples.Base.{[], none, codes}
use boost_asio_samples.Decimal.{to_string}
use boost_asio_samples.Errors.{success}
use boost_asio_samples.Setup.Tried.{System}

abbrev pub machine : System
machine = record {
  from_string = λ ip. (success, ip);
  any = codes "0.0.0.0";
  open_acceptor = success;
  open_socket = success;
  bind = λ e. success;
  listen = λ n. none;
  make_socket = none;
  make_open_socket = none;
  connect = λ e. none;
  accept = none;
  resolve = λ host port. (success, []);
  message = λ e. codes "failed";
  what = λ e. codes "failed";
  value_text = λ e. to_string e.value;
  code_text = λ e. to_string e.value;
}
