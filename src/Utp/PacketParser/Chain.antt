-- ===== src/Utp/PacketParser/Chain.antt =====
-- A packet with a chain of extensions, and what the parser makes of it.
mod Tests
use libktorrent_stream.Base.{
  ℕ, zero, suc, ◌+◌, ◌-◌, ◌*◌, ◌%◌, ◌^◌, ◌≤◌, ◌<◌, ◌≡◌, ◌≢◌, refl, sym, ap, ◌∙◌, Bool, true, false,
  not, ◌&&◌, Option, none, some, List, [], ◌∷◌, ◌++◌, append_assoc, arith, ltb, ◌==◌, if◌then◌else◌,
  length, length-append, length-drop, take, drop, drop-drop, get_or-drop, drop-append_exact,
  get_or-append, take-append_exact, All,
}
use libktorrent_stream.Util.Words.{add32, byte_at}
use libktorrent_stream.Utp.Header.{read}
use libktorrent_stream.Utp.Header.RoundTrip.{extension-read}
use libktorrent_stream.Utp.SelectiveAck.{SelectiveAck}
use libktorrent_stream.Utp.PacketParser.{Parsed, parse, parse_extensions, finish, sack_at}

-- An extension: its kind and its body
abbrev pub Extension : Type 0
Extension = ℕ × List ℕ

-- The kind of the first extension, 0 where there is none
unfoldable pub first_id : List Extension → ℕ
first_id [] = 0
first_id (e ∷ exts) = e.0

-- The extensions on the wire: each names the kind of the next one.
unfoldable pub encode : List Extension → List ℕ
unfolding first_id
encode [] = []
encode (e ∷ exts) = first_id exts ∷ length e.1 ∷ (e.1 ++ encode exts)

-- The last selective acknowledgement of a chain
unfoldable pub last_sack : List Extension → Option SelectiveAck → Option SelectiveAck
unfolding first_id
last_sack [] sack = sack
last_sack (e ∷ exts) sack = last_sack exts (
    if e.0 == 1
    then some (record { extension = first_id exts; length = length e.1; bitmask = e.1 })
    else sack)

head_byte :
    (packet : List ℕ) (off i : ℕ) (rest : List ℕ)
    → drop off packet ≡ rest
    → byte_at packet (off + i) ≡ byte_at rest i
head_byte packet off i rest e = sym (get_or-drop off i packet 0) ∙ ap (λ xs. byte_at xs i) e

-- A round of the loop that does not end it
pub round_lem :
    (fuel : ℕ) (packet : List ℕ) (ext_id off : ℕ) (sack : Option SelectiveAck)
    → (ltb off (length packet) && not (ext_id == 0)) ≡ true
    → (ext_id == 1 && ltb (length packet) (add32 (add32 off 2) (byte_at packet (off + 1)))) ≡ false
    → parse_extensions (suc fuel) packet ext_id off sack
      ≡ parse_extensions fuel packet
          (byte_at packet off)
          (add32 off (2 + byte_at packet (off + 1)))
          (if ext_id == 1 then some (sack_at packet off) else sack)
unfolding parse_extensions
round_lem fuel packet ext_id off sack more uncut = ground arith

-- No extension is left.
end_lem :
    (fuel : ℕ) (packet : List ℕ) (off : ℕ) (sack : Option SelectiveAck)
    → parse_extensions fuel packet 0 off sack ≡ some (off, sack)
unfolding parse_extensions
end_lem zero packet off sack = refl
end_lem (suc fuel) packet off sack = ground arith

chain_lem :
    (exts : List Extension) (fuel off : ℕ) (packet rest : List ℕ) (sack : Option SelectiveAck)
    → All (λ e. e.0 ≢ 0) exts
    → drop off packet ≡ encode exts ++ rest
    → off ≤ length packet
    → length packet < 2 ^ 31
    → length (encode exts) < fuel
    → parse_extensions fuel packet (first_id exts) off sack
      ≡ some (off + length (encode exts), last_sack exts sack)
unfolding parse_extensions encode first_id last_sack
chain_lem [] zero off packet rest sack a e h small f = absurd (omega arith)
chain_lem [] (suc fuel) off packet rest sack a e h small f = ground arith
chain_lem (x ∷ exts) zero off packet rest sack a e h small f = absurd (omega arith)
chain_lem (x ∷ exts) (suc fuel) off packet rest sack a e h small f =
    let next : byte_at packet off ≡ first_id exts =
      ap (byte_at packet) (omega arith) ∙ head_byte packet off 0 _ e in
    let len : byte_at packet (off + 1) ≡ length x.1 = head_byte packet off 1 _ e in
    let behind : drop (off + 2) packet ≡ x.1 ++ (encode exts ++ rest) =
      sym (drop-drop off 2 packet) ∙ ap (drop 2) e ∙ append_assoc x.1 (encode exts) rest in
    let room : off + (2 + length x.1 + length (encode exts)) ≤ length packet = omega (
      arith,
      length-drop off packet,
      ap length e,
      length-append x.1 (encode exts),
      length-append (x.1 ++ encode exts) rest,
    ) in
    let more : (ltb off (length packet) && not (x.0 == 0)) ≡ true = ground (arith, a.0, room) in
    let uncut : (x.0 == 1 && ltb (length packet) (add32 (add32 off 2) (byte_at packet (off + 1))))
        ≡ false =
      rw len (ground arith) in
    let step : add32 off (2 + length x.1) ≡ off + (2 + length x.1) = omega arith in
    let after : drop (off + (2 + length x.1)) packet ≡ encode exts ++ rest =
      ap (λ n. drop n packet) (omega arith)
      ∙ sym (drop-drop (off + 2) (length x.1) packet)
      ∙ ap (drop (length x.1)) behind
      ∙ drop-append_exact x.1 (encode exts ++ rest) in
    let mask : take (length x.1) (drop (off + 2) packet) ≡ x.1 =
      ap (take (length x.1)) behind ∙ take-append_exact x.1 _ (length x.1) refl in
    round_lem fuel packet x.0 off sack more uncut
    ∙ rw (len, step, next, mask)
        (chain_lem exts fuel (off + (2 + length x.1)) packet rest _ a.1 after (omega (arith, room))
            small (omega (arith, f, length-append x.1 (encode exts)))
          ∙ ap (λ n. some (n, last_sack (x ∷ exts) sack))
              (omega (arith, length-append x.1 (encode exts))))

parse_from :
    (packet : List ℕ)
    → 20 ≤ length packet
    → parse packet
      ≡ finish packet (parse_extensions (length packet) packet (byte_at packet 1) 20 none)
unfolding parse
parse_from packet h =
    let long : ltb (length packet) 20 ≡ false = ground arith in
    rw (long, extension-read packet) refl

finish_lem :
    (packet : List ℕ) (data_off data_size : ℕ) (sack : Option SelectiveAck)
    → (length packet + 2 ^ 32 - data_off) % 2 ^ 32 ≡ data_size
    → finish packet (some (data_off, sack))
      ≡ some (record {
        header = read packet;
        selective_ack = sack;
        data_off = data_off;
        data_size = data_size;
      })
unfolding finish
finish_lem packet data_off data_size sack e = rw e refl

-- A packet of a header, a chain of extensions and data parses to the data behind the chain and the last
-- selective acknowledgement of the chain, whose mask lies in the packet.
pub parse_chain :
    (header : List ℕ) (exts : List Extension) (rest : List ℕ)
    → length header ≡ 20
    → byte_at header 1 ≡ first_id exts
    → All (λ e. e.0 ≢ 0) exts
    → length (header ++ (encode exts ++ rest)) < 2 ^ 31
    → parse (header ++ (encode exts ++ rest))
      ≡ some (record {
        header = read (header ++ (encode exts ++ rest));
        selective_ack = last_sack exts none;
        data_off = 20 + length (encode exts);
        data_size = length rest;
      })
parse_chain header exts rest sized linked a small =
    let packet : List ℕ = header ++ (encode exts ++ rest) in
    let total : length packet ≡ 20 + (length (encode exts) + length rest) =
      omega (arith, length-append header (encode exts ++ rest), length-append (encode exts) rest) in
    let kind : byte_at packet 1 ≡ first_id exts =
      get_or-append header (encode exts ++ rest) 1 0 (omega arith) ∙ linked in
    let start : drop 20 packet ≡ encode exts ++ rest =
      ap (λ n. drop n packet) (sym sized) ∙ drop-append_exact header (encode exts ++ rest) in
    parse_from packet (omega (arith, total))
    ∙ ap (λ id. finish packet (parse_extensions (length packet) packet id 20 none)) kind
    ∙ ap (finish packet) (
        chain_lem exts (length packet) 20 packet rest none a start (omega (arith, total)) small
          (omega (arith, total)))
    ∙ finish_lem packet (20 + length (encode exts)) (length rest) (last_sack exts none)
        (omega (arith, total))

-- The length of an extension of another kind than a selective acknowledgement is not checked: one that
-- says more bytes than the packet has still parses, to an offset past the end and a data size that has
-- wrapped round to almost 2 ^ 32.
pub parse_overrun :
    (packet : List ℕ) (len : ℕ)
    → 22 ≤ length packet
    → 1 < byte_at packet 1
    → byte_at packet 20 ≡ 0
    → byte_at packet 21 ≡ len
    → length packet < 22 + len
    → 22 + len < 2 ^ 31
    → parse packet
      ≡ some (record {
        header = read packet;
        selective_ack = none;
        data_off = 22 + len;
        data_size = 2 ^ 32 - (22 + len - length packet);
      })
parse_overrun packet len h kind last size over small =
    parse_from packet (omega arith)
    ∙ ap (finish packet) (
        ap (λ n. parse_extensions n packet (byte_at packet 1) 20 none) (omega arith)
        ∙ round_lem (length packet - 1) packet (byte_at packet 1) 20 none (ground arith)
            (ground arith)
        ∙ ended)
    ∙ finish_lem packet (22 + len) _ none (omega arith)
  where
    ended :
        parse_extensions
          (length packet - 1)
          packet
          (byte_at packet 20)
          (add32 20 (2 + byte_at packet 21))
          (if byte_at packet 1 == 1 then some (sack_at packet 20) else none)
        ≡ some (22 + len, none)
    ended =
        let other : (byte_at packet 1 == 1) ≡ false = ground arith in
        let step : add32 20 (2 + len) ≡ 22 + len = omega arith in
        rw (last, size, other, step) (end_lem (length packet - 1) packet (22 + len) none)
