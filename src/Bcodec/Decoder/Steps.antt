-- ===== src/Bcodec/Decoder/Steps.antt =====
-- The branches of `decode` and of its loops, as equations.
use libktorrent_stream.Base.{
  ℕ, suc, ◌+◌, ◌-◌, ◌≤◌, ◌<◌, ◌≡◌, true, false, none, some, List, length, get_or, arith,
}
use libktorrent_stream.Bcodec.Numbers.{QtNumbers}
use libktorrent_stream.Bcodec.Node.{dict, list, entry, no_entries, no_nodes}
use libktorrent_stream.Bcodec.Decoder.{
  ok, thrown, bind, dict_token, list_token, int_token, string_token, other_token, token_of, more,
  key_of, value_of, append_node, illegal_token, decode, parse_entries, parse_nodes, parse_int,
  parse_string,
}

module _ (q : QtNumbers) (fuel : ℕ) (bytes : List ℕ) (off : ℕ) where
  pub decode_end : length bytes ≤ off → decode q (suc fuel) bytes off ≡ ok (none, off)
  unfolding decode
  decode_end h = ground arith

  pub decode-dict :
      off < length bytes
      → token_of (get_or bytes off 0) ≡ dict_token
      → decode q (suc fuel) bytes off
        ≡ bind
            (parse_entries q fuel bytes (off + 1))
            (λ r. ok (some (dict r.0 off (r.1 - off)), r.1))
  unfolding decode
  decode-dict h t = ground arith

  pub decode-list :
      off < length bytes
      → token_of (get_or bytes off 0) ≡ list_token
      → decode q (suc fuel) bytes off
        ≡ bind (parse_nodes q fuel bytes (off + 1)) (λ r. ok (some (list r.0 off (r.1 - off)), r.1))
  unfolding decode
  decode-list h t = ground arith

  pub decode-int :
      off < length bytes
      → token_of (get_or bytes off 0) ≡ int_token
      → decode q (suc fuel) bytes off ≡ bind (parse_int q bytes off) (λ r. ok (some r.0, r.1))
  unfolding decode
  decode-int h t = ground arith

  pub decode-string :
      off < length bytes
      → token_of (get_or bytes off 0) ≡ string_token
      → decode q (suc fuel) bytes off ≡ bind (parse_string q bytes off) (λ r. ok (some r.0, r.1))
  unfolding decode
  decode-string h t = ground arith

  pub decode-other :
      off < length bytes
      → token_of (get_or bytes off 0) ≡ other_token
      → decode q (suc fuel) bytes off ≡ thrown (illegal_token (get_or bytes off 0))
  unfolding decode
  decode-other h t = ground arith

  pub parse_entries_end :
      more bytes off ≡ false → parse_entries q (suc fuel) bytes off ≡ ok (no_entries, off + 1)
  unfolding decode
  parse_entries_end e = ground arith

  pub parse_entries-more :
      more bytes off ≡ true
      → parse_entries q (suc fuel) bytes off
        ≡ bind (decode q fuel bytes off) (λ kn. bind (key_of kn.0) (λ key.
          bind (decode q fuel bytes kn.1) (λ vn.
            bind
              (value_of vn.0)
              (λ v. bind (parse_entries q fuel bytes vn.1) (λ r. ok (entry key v r.0, r.1))))))
  unfolding decode
  parse_entries-more e = ground arith

  pub parse_nodes_end :
      more bytes off ≡ false → parse_nodes q (suc fuel) bytes off ≡ ok (no_nodes, off + 1)
  unfolding decode
  parse_nodes_end e = ground arith

  pub parse_nodes-more :
      more bytes off ≡ true
      → parse_nodes q (suc fuel) bytes off
        ≡ bind
            (decode q fuel bytes off)
            (λ n. bind (parse_nodes q fuel bytes n.1) (λ r. ok (append_node n.0 r.0, r.1)))
  unfolding decode
  parse_nodes-more e = ground arith
