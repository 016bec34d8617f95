-- ===== src/IoBuffers/Tests.antt =====
-- Runs of asiolib/io_buffers.hpp over a socket that moves one byte at a time.
use boost_asio_samples.Base.{◌≡◌, refl, codes}
use boost_asio_samples.Errors.{windows}
use boost_asio_samples.IoBuffers.Wire.{Wire, wire, wire_laws}
use boost_asio_samples.IoBuffers.Calls.{done}
use boost_asio_samples.IoBuffers.Writing.{Written, IsWriteFailure, write_to_socket-Written}
use boost_asio_samples.IoBuffers.Reading.{HasRead, IsReadFailure, read_from_socket-HasRead}
use boost_asio_samples.IoBuffers.Bounds.{
  LogHas, WroteRests, AskedFits, watched, unused, loops_in_bounds,
}
use boost_asio_samples.IoBuffers.{write_to_socket, read_from_socket, write_rest}

abbrev greeting : Wire
greeting = record { sent = codes "a"; incoming = codes "hello\nworld" }

write_to_socket-Written_example :
    Written windows wire wire_laws
      (IsWriteFailure windows wire wire_laws)
      (codes "a")
      (codes "bcd")
      (write_to_socket wire (codes "bcd") greeting)
unfolding wire_laws
write_to_socket-Written_example =
    write_to_socket-Written windows wire wire_laws (codes "bcd") greeting

written :
    write_to_socket wire (codes "bcd") greeting ≡ done tt (record greeting { sent = codes "abcd" })
unfolding write_to_socket write_rest
written = refl

read_from_socket-HasRead_example :
    HasRead windows wire wire_laws
      (IsReadFailure windows wire wire_laws)
      5
      (codes "hello\nworld")
      (read_from_socket wire 5 greeting)
unfolding wire_laws
read_from_socket-HasRead_example = read_from_socket-HasRead windows wire wire_laws 5 greeting

loops_in_bounds_example :
    LogHas windows wire wire_laws
      (WroteRests windows wire wire_laws (codes "bcd"))
      (write_to_socket (watched wire) (codes "bcd") (greeting, unused))
    × LogHas windows wire wire_laws
        (AskedFits windows wire wire_laws 5)
        (read_from_socket (watched wire) 5 (greeting, unused))
loops_in_bounds_example = loops_in_bounds windows wire wire_laws (codes "bcd") 5 greeting
