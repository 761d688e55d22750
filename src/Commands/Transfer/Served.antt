-- ===== src/Commands/Transfer/Served.antt =====
-- src/commands.rs: a camera that serves the chunks of an object as a download asks for them.
use pipop_core.Base.{
  ℕ, zero, suc, ◌+◌, ◌-◌, ◌^◌, ◌≤◌, ◌<◌, ◌≡◌, Bytes, ok, length, take, drop, arith,
}
use native.Mathlib.Decide.{dec_lt}
use mathlib.Core.Path.{subst}
use pipop_core.Types.{DownloadStats}
use pipop_core.Net.{Wire}
use pipop_core.Commands.Transfer.{ChunkDownloadConfig, Fetch, next_chunk_size}
use pipop_core.Commands.Transfer.Safety.{size_at, next_chunk_size-bounds}

-- A camera that answers each request with the bytes that it asks for.
abbrev pub IsComplete : Bytes → Fetch → Type 0
IsComplete object fetch =
    (offset len : ℕ) (stats : DownloadStats) (w : Wire)
    → (fetch offset len stats w).0 ≡ ok (take len (drop offset object))

-- The length of a chunk is not cut by the conversion to 32 bits.
pub next_chunk_size_narrow :
    (config : ChunkDownloadConfig) (remaining : ℕ)
    → config.chunk_size < 2 ^ 32
    → config.min_chunk_size < 2 ^ 32
    → next_chunk_size config remaining < 2 ^ 32
unfolding next_chunk_size
next_chunk_size_narrow config remaining u v = ground arith

module _ (object : Bytes) (fetch : Fetch) (config : ChunkDownloadConfig) where
  -- From this offset and connection on, each request of the download returns what it asks for, and
  -- the next one goes out on the connection that the last one leaves.
  pub data Served : ℕ → Wire → Type 0 where
    all_served : {w : Wire} → Served (length object) w
    one_served :
        {offset : ℕ} {w : Wire}
        → ((stats : DownloadStats)
            → (fetch offset (size_at object fetch config offset) stats w).0
              ≡ ok (take (size_at object fetch config offset) (drop offset object)))
        → ((stats : DownloadStats)
            → Served
                (offset + size_at object fetch config offset)
                (fetch offset (size_at object fetch config offset) stats w).2)
        → Served offset w

  -- The next request, where something is left of the object.
  pub Served-next :
      {offset : ℕ} {w : Wire}
      → Served offset w
      → offset < length object
      → ((stats : DownloadStats)
          → (fetch offset (size_at object fetch config offset) stats w).0
            ≡ ok (take (size_at object fetch config offset) (drop offset object)))
        × ((stats : DownloadStats)
            → Served
                (offset + size_at object fetch config offset)
                (fetch offset (size_at object fetch config offset) stats w).2)
  Served-next all_served h = absurd (omega arith)
  Served-next (one_served a r) h = (a, r)

  -- A camera that answers each request serves each download.
  pub complete-Served :
      (fuel offset : ℕ) (w : Wire)
      → IsComplete object fetch
      → 0 < config.chunk_size
      → length object - offset < fuel
      → offset ≤ length object
      → Served offset w
  complete-Served zero offset w complete c l k = absurd (omega arith)
  complete-Served (suc fuel) offset w complete c l k = elim (dec_lt offset (length object)) [
    | no n ↦ let e : length object ≡ offset = omega arith in subst (λ o. Served o w) e all_served
    | yes m ↦
        let b = next_chunk_size-bounds config (length object - offset) c (omega arith) in
        one_served (λ stats. complete offset (size_at object fetch config offset) stats w)
          (λ stats.
            complete-Served fuel (offset + size_at object fetch config offset)
              (fetch offset (size_at object fetch config offset) stats w).2 complete c
              (omega (arith, b)) (omega (arith, b)))
  ]
