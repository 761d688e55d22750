-- ===== src/Examples/Data.antt =====
-- The data of the examples: a big-endian order, random numbers, connections.
use pipop_core.Base.{ℕ, ◌+◌, ◌*◌, ◌/◌, ◌%◌, ◌^◌, ◌<◌, ◌≡◌, ap, [], ◌∷◌, Bytes, arith}
use pipop_core.External.{BigEndian, Random}
use pipop_core.Utils.{write_u16_be, write_u32_be, write_u64_be}
use pipop_core.Net.{Wire}

-- The number that the bytes stand for, behind what is read already.
abbrev pub number_from : ℕ → Bytes → ℕ
number_from acc [] = acc
number_from acc (b ∷ bs) = number_from (acc * 2 ^ 8 + b) bs

cons_same : {a b : ℕ} (bs : Bytes) → a ≡ b → ◌≡◌ {A = Bytes} (a ∷ bs) (b ∷ bs)
cons_same bs p = ap (λ (t : ℕ). t ∷ bs) p

pub write_u16_law : (n : ℕ) → n < 2 ^ 16 → write_u16_be n ≡ n / 2 ^ 8 ∷ n % 2 ^ 8 ∷ []
unfolding write_u16_be
write_u16_law n h = cons_same _ (omega arith)

pub write_u32_law :
    (n : ℕ)
    → n < 2 ^ 32
    → write_u32_be n ≡ n / 2 ^ 24 ∷ n / 2 ^ 16 % 2 ^ 8 ∷ n / 2 ^ 8 % 2 ^ 8 ∷ n % 2 ^ 8 ∷ []
unfolding write_u32_be
write_u32_law n h = cons_same _ (omega arith)

pub write_u64_law :
    (n : ℕ)
    → n < 2 ^ 64
    → write_u64_be n
      ≡ n / 2 ^ 56
        ∷ n / 2 ^ 48 % 2 ^ 8
        ∷ n / 2 ^ 40 % 2 ^ 8
        ∷ n / 2 ^ 32 % 2 ^ 8
        ∷ n / 2 ^ 24 % 2 ^ 8
        ∷ n / 2 ^ 16 % 2 ^ 8
        ∷ n / 2 ^ 8 % 2 ^ 8
        ∷ n % 2 ^ 8
        ∷ []
unfolding write_u64_be
write_u64_law n h = cons_same _ (omega arith)

abbrev pub network_order : BigEndian
network_order = record {
  write_u16 = write_u16_be;
  write_u32 = write_u32_be;
  write_u64 = write_u64_be;
  read_u16 = number_from 0;
  read_u32 = number_from 0;
  read_u64 = number_from 0;
  write_u16_lem = write_u16_law;
  write_u32_lem = write_u32_law;
  write_u64_lem = write_u64_law;
  read_u16_lem = λ a b. omega arith;
  read_u32_lem = λ a b c d. omega arith;
  read_u64_lem = λ a b c d e f g h. omega arith;
}

-- Random numbers: 7, 8, 9 and so on, below 2^32.
abbrev pub counting : Random
counting = record { draw = λ i. (i + 7) % 2 ^ 32; draw_lt = λ i. omega arith }

abbrev pub quiet : Wire
quiet = record { incoming = []; outgoing = []; writes = []; clock = 0; drawn = 0 }
