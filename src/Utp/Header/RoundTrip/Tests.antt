-- ===== src/Utp/Header/RoundTrip/Tests.antt =====
-- The round trip of a header at a concrete one.
use libktorrent_stream.Base.{◌≡◌, arith, replicate}
use libktorrent_stream.Utp.Header.{Header, read, write}
use libktorrent_stream.Utp.Header.RoundTrip.{read-write}

abbrev a_header : Header
a_header = record {
  version = 1;
  type = 4;
  extension = 2;
  connection_id = 0x1234;
  timestamp_microseconds = 0xDEADBEEF;
  timestamp_difference_microseconds = 0x01020304;
  wnd_size = 65536;
  seq_nr = 0xFFFF;
  ack_nr = 7;
}

read-write_example : read (write a_header (replicate 24 0)) ≡ a_header
read-write_example = read-write a_header (replicate 24 0) (omega arith) (omega arith)
