-- ===== src/Bcodec/Decoder/Leaves.antt =====
-- What the decoder makes of an encoded number and of an encoded string.
use libktorrent_stream.Base.{
  ℕ, ◌+◌, ◌-◌, ◌%◌, ◌^◌, ◌≤◌, ◌<◌, ◌≡◌, refl, sym, ◌∙◌, ap, false, List, [], ◌∷◌, ◌++◌,
  append_assoc, length, length-append, length-drop, take, drop, drop-drop, drop-append_exact,
  take-append_exact, get_or, get_or-drop, ltb, leb, All, Bool-cases, inl, inr, arith, ltb→lt,
}
use libktorrent_stream.Bcodec.Numbers.{QtNumbers, IsDecimal, IsDigit}
use libktorrent_stream.Bcodec.Node.{value, string, BNode, Value}
use libktorrent_stream.Bcodec.Tree.{number, emit, emit_text, number_value}
use libktorrent_stream.Bcodec.Decoder.{
  Result, ok, token_of, string_token, read_until, convert, not_negative, int_value, string_length,
  int_node, string_node, parse_int, parse_string,
}

-- What stands behind a prefix
pub drop_past :
    (bytes xs ys : List ℕ) (off n : ℕ)
    → drop off bytes ≡ xs ++ ys
    → n ≡ length xs
    → drop (off + n) bytes ≡ ys
drop_past bytes xs ys off n e l =
    ap (λ k. drop (off + k) bytes) l
    ∙ sym (drop-drop off (length xs) bytes)
    ∙ ap (drop (length xs)) e
    ∙ drop-append_exact xs ys

pub byte_there :
    (bytes rest : List ℕ) (off b : ℕ) → drop off bytes ≡ b ∷ rest → get_or bytes off 0 ≡ b
byte_there bytes rest off b e =
    ap (λ i. get_or bytes i 0) (omega arith)
    ∙ sym (get_or-drop off 0 bytes 0)
    ∙ ap (λ xs. get_or xs 0 0) e

-- How many bytes there are
pub length_there :
    (bytes xs : List ℕ) (off : ℕ)
    → drop off bytes ≡ xs
    → 1 ≤ length xs
    → length bytes ≡ off + length xs
length_there bytes xs off e h = omega (arith, ap length e, length-drop off bytes)

pub token_of-digit : (c : ℕ) → IsDigit c → token_of c ≡ string_token
token_of-digit c d = ground arith

read_until-digits :
    (stop : ℕ) (n rest : List ℕ)
    → 57 < stop
    → All IsDigit n
    → read_until stop (n ++ (stop ∷ rest)) ≡ n
unfolding read_until
read_until-digits stop [] rest h a = ground arith
read_until-digits stop (c ∷ n) rest h a = ground (arith, read_until-digits stop n rest h)

-- The length of a node that ends at `end`
node_lem :
    (v : Value) (off end len : ℕ)
    → end ≡ off + len
    → ◌≡◌ {A = Result (BNode × ℕ)}
        (ok (value v off (end - off), end))
        (ok (value v off len, off + len))
node_lem v off end len e =
    ap (λ k. ok (value v off (k - off), k)) e
    ∙ ap (λ k. ok (value v off k, off + len)) (omega arith)

module _ (q : QtNumbers) (laws : IsDecimal q) where
  int_value-number : (n : ℕ) → n < 2 ^ 63 → int_value q (q.number n) ≡ ok (number_value n)
  unfolding int_value convert
  int_value-number n small = elim (Bool-cases (ltb n (2 ^ 31))) [
    | inl fits ↦ rw (fits, laws.int_read n (ltb→lt _ _ fits)) refl
    | inr big ↦ rw (big, laws.int_refused n (ground arith), laws.long_long_read n small) refl
  ]

  pub parse_int-emit :
      (n : ℕ) (bytes rest : List ℕ) (off : ℕ)
      → n < 2 ^ 63
      → drop off bytes ≡ emit q (number n) ++ rest
      → parse_int q bytes off
        ≡ ok (
          value (number_value n) off (length (emit q (number n))),
          off + length (emit q (number n)),
        )
  unfolding emit parse_int int_node
  parse_int-emit n bytes rest off small e =
      let digits = q.number n in
      let behind : drop (off + 1) bytes ≡ digits ++ (b'e' ∷ rest) =
        drop_past bytes (b'i' ∷ []) (digits ++ (b'e' ∷ rest)) off 1
          (e ∙ ap (◌∷◌ b'i') (append_assoc digits (b'e' ∷ []) rest)) refl in
      let read : read_until b'e' (drop (off + 1) bytes) ≡ digits =
        ap (read_until b'e') behind
        ∙ read_until-digits b'e' digits rest (omega arith) (laws.prints_digits n) in
      let room : leb (length bytes) (off + 1 + length digits) ≡ false = ground (
        arith,
        length_there bytes (emit q (number n) ++ rest) off e (omega arith),
        length-append (digits ++ (b'e' ∷ [])) rest,
        length-append digits (b'e' ∷ []),
      ) in
      rw (read, room, int_value-number n small)
        (node_lem (number_value n) off (off + 1 + length digits + 1) (length (emit q (number n)))
          (omega (arith, length-append digits (b'e' ∷ []))))

  string_length-number : (n : ℕ) → n < 2 ^ 31 → string_length q (q.number n) ≡ ok n
  unfolding string_length not_negative
  string_length-number n small = rw (laws.int_read n small) refl

  pub parse_string-emit :
      (s bytes rest : List ℕ) (off : ℕ)
      → length bytes < 2 ^ 31
      → drop off bytes ≡ emit_text q s ++ rest
      → parse_string q bytes off
        ≡ ok (value (string s) off (length (emit_text q s)), off + length (emit_text q s))
  unfolding parse_string string_node
  parse_string-emit s bytes rest off small e =
      let digits = q.number (length s) in
      let here : drop off bytes ≡ digits ++ (b':' ∷ (s ++ rest)) =
        e ∙ append_assoc digits (b':' ∷ s) rest in
      let read : read_until b':' (drop off bytes) ≡ digits =
        ap (read_until b':') here
        ∙ read_until-digits b':' digits (s ++ rest) (omega arith) (laws.prints_digits (length s)) in
      let total : length bytes ≡ off + (length digits + (1 + (length s + length rest))) = omega (
        arith,
        length_there bytes (emit_text q s ++ rest) off e (
            omega (
              arith,
              laws.prints_some (length s),
              length-append (emit_text q s) rest,
              length-append digits (b':' ∷ s),
            )),
        length-append (emit_text q s) rest,
        length-append digits (b':' ∷ s),
      ) in
      let room : leb (length bytes) (off + length digits) ≡ false = ground (arith, total) in
      let complete : ltb (length bytes) ((off + length digits + 1 + length s) % 2 ^ 32) ≡ false =
        ground (arith, total) in
      let body : take (length s) (drop (off + length digits + 1) bytes) ≡ s =
        ap (take (length s)) (
          ap (λ k. drop k bytes) (omega (arith, length-append digits (b':' ∷ [])))
          ∙ drop_past bytes (digits ++ (b':' ∷ [])) (s ++ rest) off _
              (here ∙ sym (append_assoc digits (b':' ∷ []) (s ++ rest))) refl)
        ∙ take-append_exact s rest (length s) refl in
      rw (read, room, string_length-number (length s) (omega (arith, total)), complete, body)
        (node_lem (string s) off (off + length digits + 1 + length s) (length (emit_text q s))
          (omega (arith, length-append digits (b':' ∷ s))))
