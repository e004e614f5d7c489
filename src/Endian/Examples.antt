-- ===== src/Endian/Examples.antt =====
-- Integers written in both orders and read back.
use node_lua.Common.{◌≡◌, refl, ◌∷◌, [], ◌^◌, ◌-◌}
use node_lua.Endian.{little, big, sign_extend, endian_to_integer, endian_from_integer}
use node_lua.Endian.RoundTrip.{four, endian_to_integer-from}

big_header : endian_from_integer little 0x1234 4 big ≡ 0 ∷ 0 ∷ 0x12 ∷ 0x34 ∷ []
unfolding endian_from_integer
big_header = refl

-- A byte above 127 reads as a negative number.
high_byte : endian_to_integer little (200 ∷ []) 1 little ≡ 2 ^ 64 - 56
unfolding endian_to_integer sign_extend
high_byte = refl

endian_to_integer-from_example :
    endian_to_integer big (endian_from_integer big 0x1234 4 little) 4 little ≡ sign_extend 4 0x1234
endian_to_integer-from_example = endian_to_integer-from big little 0x1234 four
