-- ===== src/Stl/Memory/Tests.antt =====
-- A copy of 100 bytes to an overlapping place below.
use electric_os.Base.{some, ◌≡◌, arith, inl}
use electric_os.Stl.Memory.{copy_memory}
use electric_os.Stl.Memory.Copy.{copied}
use electric_os.Stl.Memory.Overlap.{copy_memory-copied}

copy_memory-copied_example :
    copy_memory 101 (λ a. a) 0x1010 0x1000 100 ≡ some (copied (λ a. a) 0x1010 0x1000 100)
copy_memory-copied_example =
    copy_memory-copied (λ a. a) 0x1010 0x1000 100 (inl (omega arith)) (omega arith) (omega arith)
      101 (omega arith)
