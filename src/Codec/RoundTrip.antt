-- ===== src/Codec/RoundTrip.antt =====
-- Each read gives back what the matching write appended, whatever bytes follow.
use sim_kv.Prelude.{
  ℕ, ◌+◌, ◌%◌, ◌^◌, ◌≡◌, refl, ap, ◌++◌, Bool, true, false, arith, length, length-append,
  take-length-append, drop-length-append, IsU32, IsU64,
}
use sim_kv.Result.{Result, ok, ◌>>=◌}
use sim_kv.Types.{Bytes}
use sim_kv.Codec.{u8, u32, u64, boolean, str, get_u8, get_u32, get_u64, get_boolean, slice, get_str}

pub get_u8-u8 : (v : ℕ) (rest : Bytes) → get_u8 (u8 v ++ rest) ≡ ok (v % 2 ^ 8, rest)
unfolding get_u8 u8
get_u8-u8 v rest = refl

pub get_u32-u32 : (v : ℕ) (rest : Bytes) → get_u32 (u32 v ++ rest) ≡ ok (v % 2 ^ 32, rest)
unfolding get_u32 u32
get_u32-u32 v rest = ap (λ n. ok (n, rest)) (omega arith)

pub get_u64-u64 : (v : ℕ) (rest : Bytes) → get_u64 (u64 v ++ rest) ≡ ok (v % 2 ^ 64, rest)
unfolding get_u64 u64
get_u64-u64 v rest = ground arith

pub get_boolean-boolean : (b : Bool) (rest : Bytes) → get_boolean (boolean b ++ rest) ≡ ok (b, rest)
unfolding get_boolean boolean
get_boolean-boolean true rest = refl
get_boolean-boolean false rest = refl

pub slice-append : (n : ℕ) (s rest : Bytes) → n ≡ length s → slice n (s ++ rest) ≡ ok (s, rest)
unfolding slice
slice-append n s rest e =
    rw (e, take-length-append, drop-length-append) (ground (arith, length-append s rest))

pub get_str-str : (s rest : Bytes) → IsU32 (length s) → get_str (str s ++ rest) ≡ ok (s, rest)
unfolding get_str str
get_str-str s rest h = slice-append _ s rest (omega arith)

-- The encodings of integers have their width.
pub length-u32 : (v : ℕ) → length (u32 v) ≡ 4
unfolding u32
length-u32 v = refl

pub length-u64 : (v : ℕ) → length (u64 v) ≡ 8
unfolding u64
length-u64 v = refl

pub length-str : (s : Bytes) → length (str s) ≡ 4 + length s
unfolding str
length-str s = omega arith

-- A read of a value that was written, in a sequence of reads.
pub u64_then {ℓ} :
    {B : Type ℓ} (v : ℕ) (rest : Bytes) (f : ℕ × Bytes → Result B)
    → IsU64 v
    → (get_u64 (u64 v ++ rest) >>= f) ≡ f (v, rest)
u64_then v rest f h = rw get_u64-u64 (ap (λ (n : ℕ). f (n, rest)) (omega arith))

pub u32_then {ℓ} :
    {B : Type ℓ} (v : ℕ) (rest : Bytes) (f : ℕ × Bytes → Result B)
    → IsU32 v
    → (get_u32 (u32 v ++ rest) >>= f) ≡ f (v, rest)
u32_then v rest f h = rw get_u32-u32 (ap (λ (n : ℕ). f (n, rest)) (omega arith))

pub u8_then {ℓ} :
    {B : Type ℓ} (v : ℕ) (rest : Bytes) (f : ℕ × Bytes → Result B)
    → (get_u8 (u8 v ++ rest) >>= f) ≡ f (v % 2 ^ 8, rest)
u8_then v rest f = rw get_u8-u8

pub boolean_then {ℓ} :
    {B : Type ℓ} (v : Bool) (rest : Bytes) (f : Bool × Bytes → Result B)
    → (get_boolean (boolean v ++ rest) >>= f) ≡ f (v, rest)
boolean_then v rest f = rw get_boolean-boolean

pub str_then {ℓ} :
    {B : Type ℓ} (s rest : Bytes) (f : Bytes × Bytes → Result B)
    → IsU32 (length s)
    → (get_str (str s ++ rest) >>= f) ≡ f (s, rest)
str_then s rest f h = rw (get_str-str s rest h)

pub slice_then {ℓ} :
    {B : Type ℓ} (n : ℕ) (s rest : Bytes) (f : Bytes × Bytes → Result B)
    → n ≡ length s
    → (slice n (s ++ rest) >>= f) ≡ f (s, rest)
slice_then n s rest f e = rw (slice-append n s rest e)
