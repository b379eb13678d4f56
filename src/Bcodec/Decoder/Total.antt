-- ===== src/Bcodec/Decoder/Total.antt =====
-- The decoder ends on every input: with fuel for the bytes that are left it gives a node or throws, and
-- a node takes a byte at least.
use libktorrent_stream.Base.{
  ℕ, zero, suc, ◌+◌, ◌-◌, ◌*◌, ◌%◌, ◌^◌, ◌≤◌, ◌<◌, ◌≡◌, refl, sym, true, ◌⊎◌, Option, none, some,
  List, ltb, leb, length, get_or, inl, inr, Bool-cases, arith, ltb→lt, drop, subst, ℤ, pos, negsuc,
}
use libktorrent_stream.Bcodec.Numbers.{QtNumbers}
use libktorrent_stream.Bcodec.Node.{BNode, Value, value, dict, list, int, int64, string, entry}
use libktorrent_stream.Bcodec.Decoder.Steps.{
  decode_end, decode-dict, decode-list, decode-int, decode-string, decode-other, parse_entries_end,
  parse_entries-more, parse_nodes_end, parse_nodes-more,
}
use libktorrent_stream.Bcodec.Decoder.{
  Result, ok, thrown, out_of_fuel, bind, Token, dict_token, list_token, int_token, string_token,
  other_token, token_of, more, key_of, value_of, decode, parse_entries, parse_nodes, parse_int,
  parse_string, int_value, string_length, convert, not_negative, int_node, string_node, read_until,
}

-- The method ends, and where it returns it has moved past an offset.
abbrev pub Ends : {A : Type 0} → ℕ → Result (A × ℕ) → Type 0
Ends off (ok r) = off < r.1
Ends off (thrown e) = Unit
Ends off out_of_fuel = ⊥

bind-Ends :
    {A B : Type 0} (off off' : ℕ) (r : Result (A × ℕ)) (f : A × ℕ → Result (B × ℕ))
    → Ends off r
    → ((a : A × ℕ) → off < a.1 → Ends off' (f a))
    → Ends off' (bind r f)
bind-Ends off off' (ok a) f e k = k a e
bind-Ends off off' (thrown x) f e k = tt
bind-Ends off off' out_of_fuel f e k = e

-- A step that is no call of the decoder
abbrev IsStep : {A : Type 0} → Result A → Type 0
IsStep (ok a) = Unit
IsStep (thrown e) = Unit
IsStep out_of_fuel = ⊥

bind-step :
    {A B : Type 0} (off : ℕ) (r : Result A) (f : A → Result (B × ℕ))
    → IsStep r
    → ((a : A) → Ends off (f a))
    → Ends off (bind r f)
bind-step off (ok a) f e k = k a
bind-step off (thrown x) f e k = tt
bind-step off out_of_fuel f e k = e

key_of-IsStep : (n : Option BNode) → IsStep (key_of n)
unfolding key_of
key_of-IsStep none = tt
key_of-IsStep (some (value (string s) off len)) = tt
key_of-IsStep (some (value (int s) off len)) = tt
key_of-IsStep (some (value (int64 s) off len)) = tt
key_of-IsStep (some (dict children off len)) = tt
key_of-IsStep (some (list children off len)) = tt

value_of-IsStep : (n : Option BNode) → IsStep (value_of n)
unfolding value_of
value_of-IsStep none = tt
value_of-IsStep (some n) = tt

convert-IsStep : (a b : Option ℤ) (n : List ℕ) → IsStep (convert a b n)
unfolding convert
convert-IsStep (some val) bi n = tt
convert-IsStep none (some bi) n = tt
convert-IsStep none none n = tt

not_negative-IsStep : (a : Option ℤ) (n : List ℕ) → IsStep (not_negative a n)
unfolding not_negative
not_negative-IsStep (some (pos len)) n = tt
not_negative-IsStep (some (negsuc k)) n = tt
not_negative-IsStep none n = tt

-- What `decode` looks at is one of five.
Token-cases :
    (t : Token)
    → (t ≡ dict_token)
      ⊎ ((t ≡ list_token) ⊎ ((t ≡ int_token) ⊎ ((t ≡ string_token) ⊎ (t ≡ other_token))))
Token-cases dict_token = inl refl
Token-cases list_token = inr (inl refl)
Token-cases int_token = inr (inr (inl refl))
Token-cases string_token = inr (inr (inr (inl refl)))
Token-cases other_token = inr (inr (inr (inr refl)))

more-lt : (bytes : List ℕ) (off : ℕ) → more bytes off ≡ true → off < length bytes
more-lt bytes off e = ground arith

int_node-Ends : (off end : ℕ) → off ≤ end → (v : Value) → Ends off (int_node off end v)
unfolding int_node
int_node-Ends off end h v = omega arith

string_node-Ends :
    (bytes : List ℕ) (off start : ℕ)
    → off < start
    → (len : ℕ) → Ends off (string_node bytes off start len)
unfolding string_node
string_node-Ends bytes off start h len =
    elim (Bool-cases (ltb (length bytes) ((start + len) % 2 ^ 32))) [
      | inl short ↦ rw short tt
      | inr long ↦ rw long (omega arith)
    ]

module _ (q : QtNumbers) where
  int_value-IsStep : (n : List ℕ) → IsStep (int_value q n)
  unfolding int_value
  int_value-IsStep n = convert-IsStep _ _ n

  string_length-IsStep : (n : List ℕ) → IsStep (string_length q n)
  unfolding string_length
  string_length-IsStep n = not_negative-IsStep _ n

  parse_int-Ends : (bytes : List ℕ) (off : ℕ) → Ends off (parse_int q bytes off)
  unfolding parse_int
  parse_int-Ends bytes off =
      elim (Bool-cases
        (leb (length bytes) (off + 1 + length (read_until b'e' (drop (off + 1) bytes))))) [
          | inl short ↦ rw short tt
          | inr long ↦
              rw long (bind-step off _ _ (int_value-IsStep _) (int_node-Ends off _ (omega arith)))
        ]

  parse_string-Ends : (bytes : List ℕ) (off : ℕ) → Ends off (parse_string q bytes off)
  unfolding parse_string
  parse_string-Ends bytes off =
      elim (Bool-cases (leb (length bytes) (off + length (read_until b':' (drop off bytes))))) [
        | inl short ↦ rw short tt
        | inr long ↦ rw long (
            bind-step off _ _ (string_length-IsStep _) (string_node-Ends bytes off _ (omega arith)))
      ]

  -- The value of an entry, and the entries that follow
  value-Ends :
      (fuel : ℕ) (bytes : List ℕ) (off off' : ℕ) (key : List ℕ)
      → off < length bytes
      → off < off'
      → 2 * (length bytes - off) ≤ fuel
      → (off' < length bytes
          → 2 * (length bytes - off') ≤ fuel
          → Ends off' (decode q fuel bytes off'))
      → ((o : ℕ) → 2 * (length bytes - o) + 1 ≤ fuel → Ends o (parse_entries q fuel bytes o))
      → Ends off (
          bind (decode q fuel bytes off') (λ vn.
            bind
              (value_of vn.0)
              (λ v. bind (parse_entries q fuel bytes vn.1) (λ r. ok (entry key v r.0, r.1)))))
  unfolding value_of
  value-Ends zero bytes off off' key inside lt h ih ihs = absurd (omega arith)
  value-Ends (suc fuel) bytes off off' key inside lt h ih ihs =
      elim (Bool-cases (ltb off' (length bytes))) [
        | inl here ↦
            bind-Ends off' off _ _ (ih (ltb→lt off' (length bytes) here) (omega arith)) (λ vn p.
              bind-step off _ _ (value_of-IsStep vn.0)
                (λ v. bind-Ends vn.1 off _ _ (ihs vn.1 (omega arith)) (λ r p'. omega arith)))
        | inr past ↦ rw (decode_end q fuel bytes off' (ground arith)) tt
      ]

  late :
      (fuel : ℕ) (bytes : List ℕ) (off off' : ℕ)
      → off < length bytes
      → off < off'
      → 2 * (length bytes - off) + 1 ≤ suc fuel
      → 2 * (length bytes - off') + 1 ≤ fuel
  late fuel bytes off off' inside lt h = omega arith

  mutual
    -- With two units for each byte that is left, `decode` ends and moves on.
    decode-Ends_rec :
        (fuel : ℕ) (bytes : List ℕ) (off : ℕ)
        → off < length bytes
        → 2 * (length bytes - off) ≤ fuel
        → Ends off (decode q fuel bytes off)
    decode-Ends_rec zero bytes off lt h = absurd (omega arith)
    decode-Ends_rec (suc fuel) bytes off lt h = elim (Token-cases (token_of (get_or bytes off 0))) [
      | inl t ↦ subst (Ends off) (sym (decode-dict q fuel bytes off lt t)) (
          bind-Ends (off + 1) off _ _ (parse_entries-Ends fuel bytes (off + 1) (omega arith))
            (λ r p. omega arith))
      | inr (inl t) ↦ subst (Ends off) (sym (decode-list q fuel bytes off lt t)) (
          bind-Ends (off + 1) off _ _ (parse_nodes-Ends fuel bytes (off + 1) (omega arith))
            (λ r p. omega arith))
      | inr (inr (inl t)) ↦
          subst (Ends off) (sym (decode-int q fuel bytes off lt t))
            (bind-Ends off off _ _ (parse_int-Ends bytes off) (λ r p. p))
      | inr (inr (inr (inl t))) ↦
          subst (Ends off) (sym (decode-string q fuel bytes off lt t))
            (bind-Ends off off _ _ (parse_string-Ends bytes off) (λ r p. p))
      | inr (inr (inr (inr t))) ↦ subst (Ends off) (sym (decode-other q fuel bytes off lt t)) tt
    ]

    parse_entries-Ends :
        (fuel : ℕ) (bytes : List ℕ) (off : ℕ)
        → 2 * (length bytes - off) + 1 ≤ fuel
        → Ends off (parse_entries q fuel bytes off)
    parse_entries-Ends zero bytes off h = absurd (omega arith)
    parse_entries-Ends (suc fuel) bytes off h = elim (Bool-cases (more bytes off)) [
      | inr done ↦ subst (Ends off) (sym (parse_entries_end q fuel bytes off done)) (omega arith)
      | inl go ↦ subst (Ends off) (sym (parse_entries-more q fuel bytes off go)) (
          bind-Ends off off _ _
            (decode-Ends_rec fuel bytes off (more-lt bytes off go) (omega arith))
            (λ kn p. bind-step off _ _ (key_of-IsStep kn.0) (λ key.
              value-Ends fuel bytes off kn.1 key (more-lt bytes off go) p (omega arith)
                (λ lt' h'. decode-Ends_rec fuel bytes kn.1 lt' h')
                (λ o h'. parse_entries-Ends fuel bytes o h'))))
    ]

    parse_nodes-Ends :
        (fuel : ℕ) (bytes : List ℕ) (off : ℕ)
        → 2 * (length bytes - off) + 1 ≤ fuel
        → Ends off (parse_nodes q fuel bytes off)
    parse_nodes-Ends zero bytes off h = absurd (omega arith)
    parse_nodes-Ends (suc fuel) bytes off h = elim (Bool-cases (more bytes off)) [
      | inr done ↦ subst (Ends off) (sym (parse_nodes_end q fuel bytes off done)) (omega arith)
      | inl go ↦ subst (Ends off) (sym (parse_nodes-more q fuel bytes off go)) (
          bind-Ends off off _ _
            (decode-Ends_rec fuel bytes off (more-lt bytes off go) (omega arith))
            (λ n p.
              bind-Ends n.1 off _ _
                (parse_nodes-Ends fuel bytes n.1
                  (late fuel bytes off n.1 (more-lt bytes off go) p h))
                (λ r p'. omega arith)))
    ]

-- On every input, with two units of fuel for each byte that is left and one more, `decode` ends. Where a byte is
-- left, it throws, or it returns a position behind the one at which it began; else it returns no node, and the
-- position at which it began.
pub decode-Ends :
    (q : QtNumbers) (fuel : ℕ) (bytes : List ℕ) (off : ℕ)
    → 2 * (length bytes - off) < fuel
    → ((off < length bytes) × Ends off (decode q fuel bytes off))
      ⊎ ((length bytes ≤ off) × (decode q fuel bytes off ≡ ok (none, off)))
decode-Ends q zero bytes off h = elim h [ ]
decode-Ends q (suc fuel) bytes off h = elim (Bool-cases (ltb off (length bytes))) [
  | inl inside ↦ inl (
    ltb→lt off (length bytes) inside,
    decode-Ends_rec q (suc fuel) bytes off (ltb→lt off (length bytes) inside) (omega arith),
  )
  | inr at_end ↦ inr (ground (arith, at_end), decode_end q fuel bytes off (ground (arith, at_end)))
]
