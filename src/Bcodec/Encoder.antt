-- ===== src/Bcodec/Encoder.antt =====
-- src/bcodec/bencoder.cpp: each call writes to the buffer, which is its list of bytes here.
use libktorrent_stream.Base.{ℕ, Bool, List, [], ◌∷◌, ◌++◌, length, if◌then◌else◌}
use libktorrent_stream.Bcodec.Numbers.{QtNumbers}

-- `BEncoderBufferOutput::write`: the bytes go behind what is there.
abbrev pub write : List ℕ → List ℕ → List ℕ
write out str = out ++ str

unfoldable pub begin_dict : List ℕ → List ℕ
begin_dict out = write out (b'd' ∷ [])

unfoldable pub begin_list : List ℕ → List ℕ
begin_list out = write out (b'l' ∷ [])

unfoldable pub end_object : List ℕ → List ℕ
end_object out = write out (b'e' ∷ [])

module _ (q : QtNumbers) where
  -- `write(Uint32)` and `write(Uint64)`
  unfoldable pub write_number : List ℕ → ℕ → List ℕ
  write_number out val = write out (b'i' ∷ (q.number val ++ (b'e' ∷ [])))

  unfoldable pub write_bool : List ℕ → Bool → List ℕ
  write_bool out val = write out (b'i' ∷ (q.number (if val then 1 else 0) ++ (b'e' ∷ [])))

  -- `write(const QByteArray &)`
  unfoldable pub write_byte_array : List ℕ → List ℕ → List ℕ
  write_byte_array out bytes = write (write (write out (q.number (length bytes))) (b':' ∷ [])) bytes
