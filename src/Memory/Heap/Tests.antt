-- ===== src/Memory/Heap/Tests.antt =====
-- The theorems on the heap at a chain of three segments.
use electric_os.Base.{
  ◌+◌, ◌*◌, ◌≡◌, refl, arith, ◌==◌, if◌then◌else◌, true, false, List, [], ◌∷◌, length, some, inl,
  inr,
}
use electric_os.Memory.Paging.{zero_entry}
use electric_os.Memory.Heap.{
  Heap, done, allocate, free, round_size, get_used_size, get_free_size, get_segment_amount,
}
use electric_os.Memory.Heap.Chain.{Block, block, Chain, Spaced, Holds}
use electric_os.Memory.Heap.FirstFit.{first_fit, HasRoom, carve}
use electric_os.Memory.Heap.Allocate.{Allocated, allocate-first_fit}
use electric_os.Memory.Heap.Free.{release, free-join}
use electric_os.Memory.Heap.Free.Join.{join}
use electric_os.Memory.Heap.Sizes.{footprint, total_size, sizes-total}

-- Two segments of 4096 bytes in use and a free one of 65536.
abbrev three : Heap
three = record {
  first_segment = 0x1000;
  last_segment = 0x1000 + 8240;
  segments = λ q.
      if q == 0x1000
      then record { next = 0x1000 + 4120; size = 4096; free = false }
      else if q == 0x1000 + 4120
      then record { next = 0x1000 + 8240; size = 4096; free = false }
      else record { next = 0; size = 65536; free = true };
  machine = record {
    pml4 = 0;
    tables = λ f i. zero_entry;
    allocator = record { page_status_map = λ i. 0; page_amount = 16; first_free_page = 0 };
  };
}

abbrev first_block : Block
first_block = block 0x1000 4096 false

abbrev other_blocks : List Block
other_blocks = block (0x1000 + 4120) 4096 false ∷ block (0x1000 + 8240) 65536 true ∷ []

three-Holds : Holds three first_block other_blocks 0x20000
three-Holds = record {
  first = refl;
  chain = (refl, (refl, (refl, tt)));
  spaced = (omega arith, (omega arith, (omega arith, omega arith)));
  in_memory = omega arith;
}

free-join_example :
    (h' : Heap) × (free 5 three (0x1000 + 4120 + 24) ≡ done h')
    × Chain h' (join (release (0x1000 + 4120) (first_block ∷ other_blocks)))
    × (h'.first_segment ≡ three.first_segment)
    × Spaced 1 (join (release (0x1000 + 4120) (first_block ∷ other_blocks))) 0x20000
    × (footprint (join (release (0x1000 + 4120) (first_block ∷ other_blocks)))
        ≡ footprint (first_block ∷ other_blocks))
free-join_example =
    free-join three first_block other_blocks 0x20000 5 (0x1000 + 4120) three-Holds (inr (inl refl))
      (omega arith)

sizes-total_example :
    (get_used_size 5 three ≡ done (total_size false (first_block ∷ other_blocks)))
    × (get_free_size 5 three ≡ done (total_size true (first_block ∷ other_blocks)))
    × (get_segment_amount 5 three ≡ done (length (first_block ∷ other_blocks)))
    × (total_size true (first_block ∷ other_blocks)
          + total_size false (first_block ∷ other_blocks)
          + 24 * length (first_block ∷ other_blocks)
        ≡ footprint (first_block ∷ other_blocks))
sizes-total_example = sizes-total three first_block other_blocks 0x20000 5 three-Holds (omega arith)

room_example : HasRoom (round_size 5000) (first_block ∷ other_blocks)
room_example =
    ((λ e. inl (omega arith)), ((λ e. inl (omega arith)), ((λ e. inr (omega arith)), tt)))

abbrev after_blocks : List Block
after_blocks =
    first_block
    ∷ block (0x1000 + 4120) 4096 false
    ∷ block (0x1000 + 8240) 5032 false
    ∷ block (0x1000 + 13320) 60456 true
    ∷ []

fits_example :
    first_fit (round_size 5000) (first_block ∷ other_blocks) ≡ some (after_blocks, 0x1000 + 8264)
unfolding first_fit carve
fits_example = refl

allocate-first_fit_example :
    (h' : Heap) × (allocate 1 5 three 5000 ≡ done (h', 0x1000 + 8264))
    × Allocated three first_block other_blocks 0x20000 5000 h' (0x1000 + 8264) after_blocks
allocate-first_fit_example =
    allocate-first_fit three first_block other_blocks 0x20000 5 5000 three-Holds (omega arith)
      (omega arith) (omega arith) room_example 0 after_blocks (0x1000 + 8264) fits_example
