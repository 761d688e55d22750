-- ===== src/Commands/Parsing/Handles.antt =====
-- src/commands.rs: lists of storages and of objects.
use pipop_core.Base.{
  ℕ, zero, suc, ◌+◌, ◌*◌, ◌^◌, ◌≤◌, ◌<◌, ◌≡◌, List, ◌++◌, Bytes, ok, err, length, length-append,
  All, ge→ltb, arith,
}
use pipop_core.Io.Needs.{Needs, Needs-bind, Needs-first}
use pipop_core.Utils.{write_u32_be}
use pipop_core.Transport.Infos.Devices.{get_u32-write, drop_header}
use pipop_core.Transport.Infos.Short.{get_u32-Takes, at_end}
use pipop_core.Commands.Parsing.{
  read_handles, counted_handles, parse_storage_ids, parse_object_handles,
}
use pipop_core.Commands.Parsing.Events.{put_handles, read_handles-put_handles}

-- A list as it stands in an answer, behind a header of eight bytes: its length, and its items.
unfoldable pub put_list : List ℕ → Bytes → Bytes
put_list xs rest = write_u32_be (length xs) ++ put_handles xs rest

counted_handles-put_list :
    (xs : List ℕ) (rest : Bytes)
    → length xs < 2 ^ 32
    → All (λ x. x < 2 ^ 32) xs
    → counted_handles (put_list xs rest) ≡ ok (xs, rest)
unfolding counted_handles put_list
counted_handles-put_list xs rest hl ha =
    rw (get_u32-write (length xs) _ hl, read_handles-put_handles xs rest ha)

length-put_list : (xs : List ℕ) (rest : Bytes) → 4 ≤ length (put_list xs rest)
unfolding put_list write_u32_be
length-put_list xs rest = omega arith

-- `parse_storage_ids` and `parse_object_handles` read a list back from an answer. The header has
-- eight bytes, the items have 32 bits, and so has their number. What comes behind is ignored.
pub parse_handles-put_list :
    (header : Bytes) (xs : List ℕ) (rest : Bytes)
    → length header ≡ 8
    → length xs < 2 ^ 32
    → All (λ x. x < 2 ^ 32) xs
    → (parse_storage_ids (header ++ put_list xs rest) ≡ ok xs)
      × (parse_object_handles (header ++ put_list xs rest) ≡ ok xs)
unfolding parse_storage_ids parse_object_handles
parse_handles-put_list header xs rest hh hl ha =
    let body = put_list xs rest in
    let long =
      ge→ltb (length (header ++ body)) 10
        (omega (arith, length-append header body, length-put_list xs rest)) in
    let found = counted_handles-put_list xs rest hl ha in
    (rw (long, drop_header header body hh, found), rw (long, drop_header header body hh, found))

pub length-written : (n : ℕ) (rest : Bytes) → length (write_u32_be n ++ rest) ≡ length rest + 4
unfolding write_u32_be
length-written n rest = omega arith

read_handles-Needs : (count : ℕ) → Needs at_end (4 * count) (read_handles count)
unfolding read_handles
read_handles-Needs zero = record { short = λ bs h. absurd (omega arith) }
read_handles-Needs (suc count) =
    let e : 4 * suc count ≡ 4 + 4 * count = omega arith in
    rw e (
      Needs-bind 4 (4 * count) _ _ get_u32-Takes
        λ handle. Needs-first (4 * count) _ _ (read_handles-Needs count))

-- An answer that announces more items than it holds, in 32 bits behind a header of eight bytes,
-- is refused with the I/O error of a read past the end, by both parsers.
pub parse_handles_cut :
    (header rest : Bytes) (count : ℕ)
    → length header ≡ 8
    → count < 2 ^ 32
    → length rest < 4 * count
    → (parse_storage_ids (header ++ (write_u32_be count ++ rest)) ≡ err at_end)
      × (parse_object_handles (header ++ (write_u32_be count ++ rest)) ≡ err at_end)
unfolding parse_storage_ids parse_object_handles counted_handles
parse_handles_cut header rest count hh hc hr =
    let body = write_u32_be count ++ rest in
    let long =
      ge→ltb (length (header ++ body)) 10
        (omega (arith, length-append header body, length-written count rest)) in
    let found = get_u32-write count rest hc in
    let fails = (read_handles-Needs count).short rest hr in
    (
      rw (long, drop_header header body hh, found, fails),
      rw (long, drop_header header body hh, found, fails),
    )
