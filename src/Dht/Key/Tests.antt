-- ===== src/Dht/Key/Tests.antt =====
-- Runs of the keys, and their theorems at concrete keys.
use libktorrent_stream.Base.{
  ◌+◌, ◌-◌, ◌%◌, ◌^◌, ◌≡◌, refl, false, [], ◌∷◌, ◌++◌, arith, ltb, replicate,
}
use libktorrent_stream.Dht.Key.{
  Key, less, add, add_bytes, add_byte, subtract, subtract_bytes, subtract_byte, divide,
  divide_bytes, mid, min, max,
}
use libktorrent_stream.Dht.Key.Value.{IsKey, number, comparison_lem}
use libktorrent_stream.Dht.Key.Arithmetic.{number-add, number-subtract}
use libktorrent_stream.Dht.Key.Midpoint.{number-mid}

-- The numbers 511 and 770
abbrev low_key : Key
low_key = replicate 18 0 ++ (1 ∷ 255 ∷ [])

abbrev high_key : Key
high_key = replicate 18 0 ++ (3 ∷ 2 ∷ [])

low_key-IsKey : IsKey low_key
low_key-IsKey = omega arith

high_key-IsKey : IsKey high_key
high_key-IsKey = omega arith

add_runs : add low_key high_key ≡ replicate 18 0 ++ (5 ∷ 1 ∷ [])
unfolding add add_bytes add_byte
add_runs = refl

subtract_wraps : subtract low_key high_key ≡ replicate 18 255 ++ (254 ∷ 253 ∷ [])
unfolding subtract subtract_bytes subtract_byte
subtract_wraps = refl

divide_runs : divide high_key 3 ≡ replicate 18 0 ++ (1 ∷ 0 ∷ [])
unfolding divide divide_bytes
divide_runs = refl

max-is_largest : less max min ≡ false
unfolding less max min
max-is_largest = refl

comparison_lem_example : less low_key high_key ≡ ltb (number low_key) (number high_key)
comparison_lem_example = (comparison_lem low_key high_key low_key-IsKey high_key-IsKey).0

number-add_example : number (add low_key high_key) ≡ (number low_key + number high_key) % 2 ^ 160
number-add_example = number-add low_key high_key low_key-IsKey high_key-IsKey

number-subtract_example :
    number (subtract low_key high_key) ≡ (number low_key + 2 ^ 160 - number high_key) % 2 ^ 160
number-subtract_example = number-subtract low_key high_key low_key-IsKey high_key-IsKey

number-mid_example : number (mid low_key high_key) ≡ 640
unfolding number
number-mid_example = (number-mid low_key high_key low_key-IsKey high_key-IsKey).1
