-- ===== src/Utp/SeqNr/Order/Tests.antt =====
-- The theorems on sequence numbers at numbers that wrap.
use libktorrent_stream.Base.{◌≡◌, arith}
use libktorrent_stream.Utp.SeqNr.{diff}
use libktorrent_stream.Utp.SeqNr.Order.{forward_lem, backward_lem}

forward_lem_example : diff 65530 4 ≡ 10
forward_lem_example = (forward_lem 65530 10 (omega arith) (omega arith)).4

backward_lem_example : diff 4 65530 ≡ 10
backward_lem_example = backward_lem 65530 10 (omega arith) (omega arith) (omega arith)
