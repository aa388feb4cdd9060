-- ===== src/Prng/Tests.antt =====
-- Draws from a generator with a fixed seed.
use sim_kv.Prelude.{ℕ, ◌+◌, ◌-◌, ◌/◌, ◌^◌, ◌≡◌, ◌<◌, ◌≤◌, ◌↔◌, refl, some, arith}
use sim_kv.Prng.{Prng, splitmix64, rotl64, seeded, next_u64, range}
use sim_kv.Prng.Range.{draw, IsAccepted, first_word, range_bounds, range-fair}

abbrev test_seed : ℕ
test_seed = 42

abbrev first_draw : ℕ
first_draw = 1546998764402558742

-- The first word of xoshiro256** seeded with SplitMix64 from 42.
first_draw_of_seed : (next_u64 (seeded test_seed)).0 ≡ first_draw
unfolding next_u64 seeded splitmix64 rotl64
first_draw_of_seed = refl

first_draw-IsAccepted : IsAccepted (150 - 100) (draw 0 (seeded test_seed)).0
unfolding draw next_u64 seeded splitmix64 rotl64
first_draw-IsAccepted = omega arith

range_bounds_example :
    (r : ℕ) × (p' : Prng) × (range 4 100 150 (seeded test_seed) ≡ some (r, p'))
    × (100 ≤ r)
    × (r < 150)
range_bounds_example =
    range_bounds 4 0 100 150 (seeded test_seed) (omega arith) (omega arith) (omega arith)
      first_draw-IsAccepted

range-fair_example :
    (range 1 100 106 (seeded test_seed) ≡ some (100, (next_u64 (seeded test_seed)).1)) ↔ (
      (first_word 6 0 ≤ (next_u64 (seeded test_seed)).0)
      × ((next_u64 (seeded test_seed)).0 < first_word 6 0 + 2 ^ 64 / 6))
range-fair_example =
    range-fair 100 106 0 (seeded test_seed) (omega arith) (omega arith) (omega arith)
