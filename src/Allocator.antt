-- ===== src/Allocator.antt =====
-- `GstAjaAllocator` and `GstAjaMemory` of gst-plugin/aja/gstaja.cpp: the blocks of video memory, locked for
-- DMA, that are kept for the next use. The addresses come from `AJAMemory::AllocateAligned` and are given
-- to the operations; that it can fail is left out, as are the slices of the headers.
pub mod Parts
pub mod Reach
pub mod Balance
pub mod Finalize
use ntv2_gst.Prelude.{
  ℕ, zero, suc, ◌+◌, ◌-◌, ◌^◌, Bool, true, false, ◌&&◌, ltb, leb, if◌then◌else◌, Option, none, some,
  List, [], ◌∷◌, ◌++◌, length,
}
use ntv2_gst.Capture.Worker.{u64}

-- What `gst_memory_init` sets, and the data.
pub record Fields : Type 0 where
  pub data_at : ℕ
  pub flags : ℕ  -- without GST_MINI_OBJECT_FLAG_LOCK_READONLY
  pub readonly : Bool
  pub maxsize : ℕ
  pub offset : ℕ
  pub size : ℕ

-- A `GstAjaMemory`, without a parent or with one.
pub data Memory : Type 0 where
  block : Fields → Memory
  sub : Memory → Fields → Memory

pub record Allocator : Type 0 where
  pub alloc_size : ℕ
  pub num_prealloc : ℕ
  pub num_allocated : ℕ
  pub free_list : List ℕ

-- What is done to the system and the device.
pub data Effect : Type 0 where
  allocate_aligned free_aligned : ℕ → Effect
  lock unlock : ℕ → ℕ → Effect  -- DMABufferLock and DMABufferUnlock, with the size

abbrev pub fields : Memory → Fields
fields (block f) = f
fields (sub p f) = f

-- "find the real parent".
abbrev pub real_parent : Memory → Memory
real_parent (block f) = block f
real_parent (sub p f) = p

-- A size of -1 is none.
abbrev share_size : Fields → ℕ → Option ℕ → ℕ
share_size f offset none = u64 (f.size + 2 ^ 64 - offset)
share_size f offset (some size) = size

-- `_aja_memory_share`.
unfoldable pub memory_share : Memory → ℕ → Option ℕ → Memory
memory_share mem offset size =
    let parent = fields (real_parent mem) in
    let f = fields mem in
    sub (real_parent mem) (record {
      data_at = parent.data_at;
      flags = parent.flags;
      readonly = true;
      maxsize = f.maxsize;
      offset = u64 (f.offset + offset);
      size = share_size f offset size;
    })

abbrev pub copy_size : Fields → ℕ → Option ℕ → ℕ
copy_size f offset none = if ltb offset f.size then f.size - offset else 0
copy_size f offset (some size) = size

-- `_aja_memory_copy`, by the address and the number of the bytes that it copies.
unfoldable pub memory_copy : Memory → ℕ → Option ℕ → ℕ × ℕ
memory_copy mem offset size =
    let f = fields mem in (f.data_at + u64 (f.offset + offset), copy_size f offset size)

abbrev new_fields : ℕ → Bool → ℕ → ℕ → Fields
new_fields flags readonly d size = record {
  data_at = d;
  flags = flags;
  readonly = readonly;
  maxsize = size;
  offset = 0;
  size = size;
}

-- What an allocation leaves.
pub record Allocated : Type 0 where
  pub alloc : Allocator
  pub data_at : ℕ
  pub effects : List Effect

abbrev take_block : ℕ → Allocator → List ℕ → Allocated
take_block fresh alloc [] = record {
  alloc = record alloc { num_allocated = alloc.num_allocated + 1 };
  data_at = fresh;
  effects = allocate_aligned fresh ∷ lock fresh alloc.alloc_size ∷ [];
}
take_block fresh alloc (d ∷ ds) = record {
  alloc = record alloc { free_list = ds };
  data_at = d;
  effects = [];
}

-- The block of `_aja_memory_new_block`, for the address that the system has ready.
unfoldable pub new_block : ℕ → Allocator → Allocated
new_block fresh alloc = take_block fresh alloc alloc.free_list

-- `gst_aja_allocator_alloc`, for flags and a size that the code asserts to be that of the allocator.
abbrev pub allocator_alloc : ℕ → Allocator → ℕ → Bool → ℕ → Memory × Allocated
allocator_alloc fresh alloc flags readonly size =
    let r = new_block fresh alloc in (block (new_fields flags readonly r.data_at size), r)

-- `gst_aja_allocator_free`.
unfoldable pub allocator_free : Allocator → Memory → Allocator × List Effect
allocator_free alloc (sub p f) = (alloc, [])
allocator_free alloc (block f) =
    if leb 8 (length alloc.free_list) && ltb alloc.num_prealloc alloc.num_allocated
    then (
      record alloc { num_allocated = alloc.num_allocated - 1 },
      unlock f.data_at f.maxsize ∷ free_aligned f.data_at ∷ [],
    )
    else (record alloc { free_list = alloc.free_list ++ f.data_at ∷ [] }, [])

abbrev pub finalize_list : ℕ → List ℕ → List Effect
finalize_list size [] = []
finalize_list size (d ∷ ds) = unlock d size ∷ free_aligned d ∷ finalize_list size ds

-- `gst_aja_allocator_finalize`.
abbrev pub allocator_finalize : Allocator → Allocator × List Effect
allocator_finalize alloc =
    (record alloc { free_list = [] }, finalize_list alloc.alloc_size alloc.free_list)

-- The effects of the loop of `gst_aja_allocator_new`, for the addresses that it gets.
abbrev pub prealloc_list : ℕ → List ℕ → List Effect
prealloc_list size [] = []
prealloc_list size (d ∷ ds) = allocate_aligned d ∷ lock d size ∷ prealloc_list size ds

-- `gst_aja_allocator_new`, for one address for each preallocated block.
abbrev pub allocator_new : ℕ → List ℕ → Allocator × List Effect
allocator_new size ds = (
  record { alloc_size = size; num_prealloc = length ds; num_allocated = length ds; free_list = ds },
  prealloc_list size ds,
)
