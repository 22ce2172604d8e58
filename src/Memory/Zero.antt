-- ===== src/Memory/Zero.antt =====
-- The rounding of source/cache.cpp to lines of 32 bytes.
use coreinit_nx.Base.{
  ℕ, ◌+◌, ◌-◌, ◌*◌, ◌/◌, ◌%◌, ◌^◌, ◌<◌, ◌≤◌, ◌≡◌, ◌≢◌, ◌↔◌, refl, ◌∙◌, false, [], ◌∷◌, leb, ◌==◌,
  if◌then◌else◌, arith,
}
use coreinit_nx.Base.Bits.{high_mask, high_mask_lem, bit_and-high_mask}
use coreinit_nx.Memory.{
  Memory, IsLawful, within, is_empty, flush, round_to_cache_line, dc_zero_range, dc_flush_range,
  dc_store_range, dc_flush_range_no_sync, dc_store_range_no_sync,
}

-- The next multiple of 32, which a word holds up to 2^32 - 32; past that the sum wraps around.
abbrev pub lines : ℕ → ℕ
lines size = if leb size (2 ^ 32 - 32) then (size + 31) / 32 * 32 else 0

pub round_to_cache_line_lem : (size : ℕ) → size < 2 ^ 32 → round_to_cache_line size ≡ lines size
unfolding round_to_cache_line
round_to_cache_line_lem size h =
    let x = (size + 0x1f) % 2 ^ 32 in
    let mask : 2 ^ 32 - 1 - 0x1f ≡ high_mask 5 27 = omega (arith, high_mask_lem 5 27 32 refl) in
    let e : round_to_cache_line size ≡ x / 32 * 32 =
      rw mask (bit_and-high_mask 5 27 32 x refl (omega arith)) in
    e ∙ ground arith

module _ (M : Memory) (lawful : IsLawful M) where
  open M use {Bytes, read, memset}

  -- `DCZeroRange` clears from its address on as many whole lines of 32 bytes as the size begins, changes
  -- no other byte, and asks for a flush of just what it cleared; a null pointer and a size of 0 change
  -- nothing and ask for nothing, and for a size above 2^32 - 32 no byte is cleared.
  pub dc_zero_range_lem :
      (addr size a : ℕ) (m : Bytes)
      → size < 2 ^ 32
      → let cleared = if addr == 0 then 0 else lines size in
        (read (dc_zero_range M addr size m).0 a ≡ (if within addr cleared a then 0 else read m a))
        × ((dc_zero_range M addr size m).1
            ≡ (if is_empty addr size then [] else flush addr (lines size) ∷ []))
  unfolding dc_zero_range
  dc_zero_range_lem addr size a m h =
      rw (round_to_cache_line_lem size h)
        (ground (arith, lawful.filled addr 0 (lines size) a m), ground arith)

-- For a size of at least 1 and at most 2^32 - 32, `DCFlushRangeNoSync` and `DCStoreRangeNoSync` ask for
-- what `DCFlushRange` and `DCStoreRange` ask for if the size is a multiple of 32, and for a longer range
-- of whole lines if it is not.
pub no_sync_differs :
    (addr size : ℕ)
    → addr ≢ 0
    → 0 < size
    → size ≤ 2 ^ 32 - 32
    → ((dc_flush_range_no_sync addr size ≡ dc_flush_range addr size) ↔ (size % 32 ≡ 0))
      × ((dc_store_range_no_sync addr size ≡ dc_store_range addr size) ↔ (size % 32 ≡ 0))
unfolding dc_flush_range_no_sync dc_flush_range dc_store_range_no_sync dc_store_range
no_sync_differs addr size n p h =
    let e = round_to_cache_line_lem size (omega arith) in
    let set : is_empty addr size ≡ false = ground arith in
    rw (e, set) ((λ q. ground arith, λ q. ground arith), (λ q. ground arith, λ q. ground arith))
