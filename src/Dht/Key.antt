-- ===== src/Dht/Key.antt =====
-- src/dht/key.h and src/dht/key.cpp: a key is 20 bytes, the first the most significant. A loop over
-- the index is a recursion on the lists; one that goes from the last byte to the first passes its carry
-- from the rest of the list to the head.
mod Tests
pub mod Value
pub mod Arithmetic
pub mod Midpoint
use libktorrent_stream.Base.{
  ℕ, zero, suc, ◌+◌, ◌-◌, ◌*◌, ◌/◌, ◌%◌, ◌^◌, bit_and, Bool, true, false, ◌||◌, List, [], ◌∷◌, ltb,
  leb, ◌==◌, if◌then◌else◌, replicate, ◌++◌, bit_xor,
}

abbrev pub Key : Type 0
Key = List ℕ

-- `operator ==` of `SHA1Hash`
unfoldable pub equals : Key → Key → Bool
equals [] ys = true
equals (x ∷ xs) [] = true
equals (x ∷ xs) (y ∷ ys) = let rest = equals xs ys in if x == y then rest else false

-- `operator <`
unfoldable pub less : Key → Key → Bool
less [] ys = false
less (x ∷ xs) [] = false
less (x ∷ xs) (y ∷ ys) =
    let rest = less xs ys in if ltb x y then true else if ltb y x then false else rest

-- `operator <=`
unfoldable pub less_or_equal : Key → Key → Bool
less_or_equal a b = less a b || equals a b

-- `operator >`
unfoldable pub greater : Key → Key → Bool
greater [] ys = false
greater (x ∷ xs) [] = false
greater (x ∷ xs) (y ∷ ys) =
    let rest = greater xs ys in if ltb x y then false else if ltb y x then true else rest

-- `operator >=`
unfoldable pub greater_or_equal : Key → Key → Bool
greater_or_equal a b = greater a b || equals a b

-- One round of `operator +` at the bytes `x` and `y`: the byte of the result, and the carry.
unfoldable pub add_byte : ℕ → ℕ → Bool → ℕ × Bool
add_byte x y carry =
    let r = x + y + (if carry then 1 else 0) in
    if ltb 255 r then (bit_and r 0xFF, true) else (r, false)

unfoldable pub add_bytes : Key → Key → Key × Bool
unfolding add_byte
add_bytes [] ys = ([], false)
add_bytes (x ∷ xs) [] = ([], false)
add_bytes (x ∷ xs) (y ∷ ys) =
    let (rest, carry) = add_bytes xs ys in
    let (r, carry') = add_byte x y carry in (r ∷ rest, carry')

unfoldable pub add : Key → Key → Key
unfolding add_bytes
add a b = (add_bytes a b).0

-- One round of `operator -` at the bytes `x` and `y`: the byte of the result, and the carry.
unfoldable pub subtract_byte : ℕ → ℕ → Bool → ℕ × Bool
subtract_byte x y carry =
    if leb y x
    then if carry then if x - y == 0 then (0xFF, true) else (x - y - 1, false) else (x - y, false)
    else if carry
    then (256 - (y - x) - 1, true)
    else (256 - (y - x), true)

unfoldable pub subtract_bytes : Key → Key → Key × Bool
unfolding subtract_byte
subtract_bytes [] ys = ([], false)
subtract_bytes (x ∷ xs) [] = ([], false)
subtract_bytes (x ∷ xs) (y ∷ ys) =
    let (rest, carry) = subtract_bytes xs ys in
    let (r, carry') = subtract_byte x y carry in (r ∷ rest, carry')

-- `operator -`
unfoldable pub subtract : Key → Key → Key
unfolding subtract_bytes
subtract a b = (subtract_bytes a b).0

-- The loop of `operator /`; a digit and a remainder are stored in a byte.
unfoldable pub divide_bytes : ℕ → ℕ → Key → Key
divide_bytes value remainder [] = []
divide_bytes value remainder (x ∷ xs) =
    (x + remainder * 2 ^ 8) / value % 2 ^ 8
    ∷ divide_bytes value ((x + remainder * 2 ^ 8) % value % 2 ^ 8) xs

-- `operator /`
unfoldable pub divide : Key → ℕ → Key
unfolding divide_bytes
divide k value = divide_bytes value 0 k

unfoldable pub mid : Key → Key → Key
unfolding add less_or_equal subtract divide
mid a b =
    if less_or_equal a b then add a (divide (subtract b a) 2) else add b (divide (subtract a b) 2)

unfoldable pub max : Key
max = replicate 20 0xFF

unfoldable pub min : Key
min = replicate 20 0

-- `operator +` of a byte
unfoldable pub add_value : Key → ℕ → Key
unfolding add
add_value a value = add a (replicate 19 0 ++ (value ∷ []))

-- `operator ^`, which is the distance
unfoldable pub distance : Key → Key → Key
distance [] ys = []
distance (x ∷ xs) [] = []
distance (x ∷ xs) (y ∷ ys) = bit_xor x y ∷ distance xs ys
