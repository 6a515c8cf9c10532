-- ===== src/Stl/Memory/Overlap.antt =====
-- Copying and filling whole ranges.
use electric_os.Base.{
  ℕ, zero, suc, ◌+◌, ◌^◌, ◌≤◌, ◌<◌, ltb, some, ◌≡◌, inl, inr, refl, arith, ◌∙◌, Bool-cases, u64,
}
use electric_os.Stl.Memory.{copy_bytes, copy_blocks, copy_memory}
use electric_os.Stl.Memory.Copy.{IsSafe, copied, copied-none, move-copied, move_block-copied}

module _ (m : ℕ → ℕ) (source dest count : ℕ) (safe : IsSafe source dest count)
    (low : source + count + 64 < 2 ^ 64) (high : dest + count < 2 ^ 64) where
  copy_bytes-copied :
      (fuel done : ℕ)
      → done ≤ count
      → count < fuel + done
      → copy_bytes fuel (copied m source dest done) (source + done) (dest + done) (source + count)
        ≡ some (copied m source dest count)
  unfolding copy_bytes
  copy_bytes-copied zero done le enough = absurd (omega arith)
  copy_bytes-copied (suc fuel) done le enough =
      elim (Bool-cases (ltb (source + done) (source + count))) [
        | inl e ↦
            let more : done + 1 ≤ count = ground arith in
            let from : u64 (source + done + 1) ≡ source + (done + 1) = omega arith in
            let to : u64 (dest + done + 1) ≡ dest + (done + 1) = omega arith in
            rw (e, move-copied m source dest count done 1 safe more, from, to)
              (copy_bytes-copied fuel (done + 1) more (omega arith))
        | inr e ↦ let all : done ≡ count = ground arith in rw (e, all) refl
      ]

  copy_blocks-copied :
      (fuel done : ℕ)
      → done ≤ count
      → count < fuel + done
      → copy_blocks fuel (copied m source dest done) (source + done) (dest + done) (source + count)
        ≡ some (copied m source dest count)
  unfolding copy_blocks
  copy_blocks-copied zero done le enough = absurd (omega arith)
  copy_blocks-copied (suc fuel) done le enough =
      elim (Bool-cases (ltb (u64 (source + done + 64)) (source + count))) [
        | inl e ↦
            let within : source + done + 64 < source + count = ground arith in
            let more : done + 64 ≤ count = omega arith in
            let from : u64 (source + done + 64) ≡ source + (done + 64) = omega arith in
            let to : u64 (dest + done + 64) ≡ dest + (done + 64) = omega arith in
            rw (e, move_block-copied m source dest count done safe more, from, to)
              (copy_blocks-copied fuel (done + 64) more (omega arith))
        | inr e ↦ rw (e) (copy_bytes-copied (suc fuel) done le enough)
      ]

  -- Where the destination is not above the source or is apart from it, and neither range
  -- reaches the end of the address space, `CopyMemory` with more fuel than bytes ends: each
  -- byte of the destination is the one that the source held, and no other byte changes.
  pub copy_memory-copied :
      (fuel : ℕ)
      → count < fuel
      → copy_memory fuel m source dest count ≡ some (copied m source dest count)
  unfolding copy_memory
  copy_memory-copied fuel enough =
      let final : u64 (source + count) ≡ source + count = omega arith in
      let from : source ≡ source + 0 = omega arith in
      let to : dest ≡ dest + 0 = omega arith in
      rw (final) (
        (λ i. copy_blocks fuel (copied-none m source dest i) (from i) (to i) (source + count))
        ∙ copy_blocks-copied fuel 0 (omega arith) (omega arith))
