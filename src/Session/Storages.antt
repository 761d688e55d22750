-- ===== src/Session/Storages.antt =====
-- src/session.rs: what the parser of `Session` makes of a list of storages.
use pipop_core.Base.{
  ℕ, ◌+◌, ◌*◌, ◌/◌, ◌%◌, ◌^◌, ◌≤◌, ◌<◌, ◌≡◌, ◌∙◌, refl, List, [], ◌∷◌, ◌++◌, Bytes, ok, length,
  take, drop, ge→ltb, length-drop, drop-drop, ap, sym, All, arith,
}
use pipop_core.Base.Bits.{bit_or-add}
use pipop_core.Utils.{u32_of, write_u16_be, write_u32_be}
use pipop_core.Commands.Parsing.Events.{put_handles}
use pipop_core.Commands.Parsing.Handles.{length-written}
use pipop_core.Utils.Words.{u32_of_lem}
use pipop_core.Utils.Numbers.{digits_u32}
use pipop_core.Session.Parsing.{count_of, storage_loop, parse_storage_ids}

-- What stands at item `i` of a list behind its two bytes.
item_start : (i : ℕ) → 2 + (i + 1) * 4 ≡ (2 + i * 4) + 4
item_start i = omega arith

u32_of-take : (x : ℕ) (bs : Bytes) → x < 2 ^ 32 → u32_of (take 4 (write_u32_be x ++ bs)) ≡ x
unfolding write_u32_be
u32_of-take x bs h =
    u32_of_lem _ _ _ _ (omega arith) (omega arith) (omega arith) (omega arith) ∙ digits_u32 x h

drop-written : (x : ℕ) (bs : Bytes) → drop 4 (write_u32_be x ++ bs) ≡ bs
unfolding write_u32_be
drop-written x bs = refl

storage_loop-put_handles :
    (xs : List ℕ) (i : ℕ) (bs rest : Bytes)
    → All (λ x. x < 2 ^ 32) xs
    → drop (2 + i * 4) bs ≡ put_handles xs rest
    → storage_loop (length xs) i bs ≡ ok xs
unfolding storage_loop put_handles
storage_loop-put_handles [] i bs rest h e = refl
storage_loop-put_handles (x ∷ xs) i bs rest h e =
    let long : 2 + i * 4 + 4 ≤ length bs =
      omega
        (arith, length-drop (2 + i * 4) bs, ap length e, length-written x (put_handles xs rest)) in
    let next : drop (2 + (i + 1) * 4) bs ≡ put_handles xs rest =
      ap (λ k. drop k bs) (item_start i)
      ∙ sym (drop-drop (2 + i * 4) 4 bs)
      ∙ ap (drop 4) e
      ∙ drop-written x (put_handles xs rest) in
    rw (
      ge→ltb (length bs) (2 + i * 4 + 4) long,
      storage_loop-put_handles xs (i + 1) bs rest h.1 next,
      e,
      u32_of-take x (put_handles xs rest) h.0,
    )

count_of-write_u16_be : (n : ℕ) (bs : Bytes) → n < 2 ^ 16 → count_of (write_u16_be n ++ bs) ≡ n
unfolding count_of write_u16_be
count_of-write_u16_be n bs h = omega (
  arith,
  bit_or-add 8 (n / 2 ^ 8 % 2 ^ 8 * 2 ^ 8 % 2 ^ 64) (n % 2 ^ 8) (omega arith) (omega arith),
)

length-count : (n : ℕ) (bs : Bytes) → length (write_u16_be n ++ bs) ≡ length bs + 2
unfolding write_u16_be
length-count n bs = omega arith

drop-count : (n : ℕ) (bs : Bytes) → drop 2 (write_u16_be n ++ bs) ≡ bs
unfolding write_u16_be
drop-count n bs = refl

-- `Session` reads back a list that stands behind its length in two bytes. The items have 32 bits,
-- and their number has 16.
pub parse_storage_ids-put_handles :
    (xs : List ℕ) (rest : Bytes)
    → length xs < 2 ^ 16
    → All (λ x. x < 2 ^ 32) xs
    → parse_storage_ids (write_u16_be (length xs) ++ put_handles xs rest) ≡ ok xs
unfolding parse_storage_ids
parse_storage_ids-put_handles xs rest hl ha =
    let bs = write_u16_be (length xs) ++ put_handles xs rest in
    rw
      (
        ge→ltb (length bs) 2 (omega (arith, length-count (length xs) (put_handles xs rest))),
        count_of-write_u16_be (length xs) (put_handles xs rest) hl,
      )
      (storage_loop-put_handles xs 0 bs rest ha (drop-count (length xs) (put_handles xs rest)))
