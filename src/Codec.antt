-- ===== src/Codec.antt =====
-- storage/codec.hpp: the little-endian encoder and decoder. A method of `Encoder` is the bytes that
-- it appends; a method of `Decoder` maps the bytes from `ptr_` up to `end_` to the value read and
-- the bytes that are left, or throws `underrun`.
pub mod RoundTrip
use sim_kv.Prelude.{
  ℕ, zero, suc, ◌+◌, ◌*◌, ◌/◌, ◌%◌, ◌^◌, List, [], ◌∷◌, ◌++◌, Bool, true, false, not, ltb, leb,
  ◌==◌, if◌then◌else◌, length, take, drop,
}
use sim_kv.Result.{Result, ok, err, underrun, ◌>>=◌}
use sim_kv.Types.{Bytes}

-- Encoder::u8
unfoldable pub u8 : ℕ → Bytes
u8 v = (v % 2 ^ 8) ∷ []

-- Encoder::u32, whose casts keep the low byte of each shifted value
unfoldable pub u32 : ℕ → Bytes
u32 v = (v % 2 ^ 8) ∷ (v / 2 ^ 8 % 2 ^ 8) ∷ (v / 2 ^ 16 % 2 ^ 8) ∷ (v / 2 ^ 24 % 2 ^ 8) ∷ []

-- the rounds left of the loop in Encoder::u64
unfoldable pub u64_loop : ℕ → ℕ → Bytes
u64_loop zero v = []
u64_loop (suc rounds) v = (v % 2 ^ 8) ∷ u64_loop rounds (v / 2 ^ 8)

-- Encoder::u64
unfoldable pub u64 : ℕ → Bytes
unfolding u64_loop
u64 v = u64_loop 8 v

-- Encoder::boolean
unfoldable pub boolean : Bool → Bytes
unfolding u8
boolean v = u8 (if v then 1 else 0)

-- Encoder::str: the cast of the size to uint32_t is the `%` in `u32`
unfoldable pub str : Bytes → Bytes
unfolding u32
str s = u32 (length s) ++ s

-- Decoder::u8
unfoldable pub get_u8 : Bytes → Result (ℕ × Bytes)
get_u8 [] = err underrun
get_u8 (b ∷ rest) = ok (b, rest)

-- Decoder::u32: the four shifted bytes do not overlap, so their `|` is their sum
unfoldable pub get_u32 : Bytes → Result (ℕ × Bytes)
get_u32 (a ∷ b ∷ c ∷ d ∷ rest) = ok (a + b * 2 ^ 8 + c * 2 ^ 16 + d * 2 ^ 24, rest)
get_u32 _ = err underrun

-- the loop of Decoder::u64 from byte `i` on, again with a sum for `|`
unfoldable pub get_u64_loop : ℕ → ℕ → ℕ → Bytes → ℕ
get_u64_loop zero i v bs = v
get_u64_loop (suc rounds) i v [] = v
get_u64_loop (suc rounds) i v (b ∷ bs) = get_u64_loop rounds (i + 1) (v + b * 2 ^ (8 * i)) bs

-- Decoder::u64
unfoldable pub get_u64 : Bytes → Result (ℕ × Bytes)
unfolding get_u64_loop
get_u64 bs = if ltb (length bs) 8 then err underrun else ok (get_u64_loop 8 0 0 bs, drop 8 bs)

-- Decoder::boolean
unfoldable pub get_boolean : Bytes → Result (Bool × Bytes)
unfolding get_u8
get_boolean bs = do (b, rest) ← get_u8 bs; ok (not (b == 0), rest)

-- Decoder::slice, and the copy out of the buffer in Decoder::str: the next `n` bytes
unfoldable pub slice : ℕ → Bytes → Result (Bytes × Bytes)
slice n bs = if ltb (length bs) n then err underrun else ok (take n bs, drop n bs)

-- Decoder::str
unfoldable pub get_str : Bytes → Result (Bytes × Bytes)
unfolding get_u32 slice
get_str bs = do (len, rest) ← get_u32 bs; slice len rest
