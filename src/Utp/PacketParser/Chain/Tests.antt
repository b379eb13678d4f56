-- ===== src/Utp/PacketParser/Chain/Tests.antt =====
-- A packet with an unknown extension and a selective acknowledgement, and one that is cut short.
use libktorrent_stream.Base.{
  ℕ, ◌-◌, ◌^◌, ◌≡◌, refl, none, some, List, [], ◌∷◌, ◌++◌, arith, replicate,
}
use libktorrent_stream.Utp.Header.{read}
use libktorrent_stream.Utp.PacketParser.{parse}
use libktorrent_stream.Utp.PacketParser.Chain.{
  Extension, encode, last_sack, first_id, parse_chain, parse_overrun,
}

abbrev two_extensions : List Extension
two_extensions = (2, 5 ∷ 6 ∷ []) ∷ (1, 8 ∷ 0 ∷ 0 ∷ 0 ∷ []) ∷ []

abbrev header_bytes : List ℕ
header_bytes = 0x01 ∷ 2 ∷ replicate 18 7

parse_chain_example :
    parse (header_bytes ++ (encode two_extensions ++ (9 ∷ 9 ∷ 9 ∷ [])))
    ≡ some (record {
      header = read (header_bytes ++ (encode two_extensions ++ (9 ∷ 9 ∷ 9 ∷ [])));
      selective_ack = some (record { extension = 0; length = 4; bitmask = 8 ∷ 0 ∷ 0 ∷ 0 ∷ [] });
      data_off = 30;
      data_size = 3;
    })
unfolding encode first_id last_sack
parse_chain_example =
    parse_chain header_bytes two_extensions (9 ∷ 9 ∷ 9 ∷ []) refl refl (omega arith) (omega arith)

-- The extension says 100 bytes, and there are none.
abbrev cut_short : List ℕ
cut_short = header_bytes ++ (0 ∷ 100 ∷ [])

parse_overrun_example :
    parse cut_short
    ≡ some (record {
      header = read cut_short;
      selective_ack = none;
      data_off = 122;
      data_size = 2 ^ 32 - 100;
    })
parse_overrun_example =
    parse_overrun cut_short 100 (omega arith) (omega arith) refl refl (omega arith) (omega arith)
