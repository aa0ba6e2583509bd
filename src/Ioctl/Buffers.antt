-- ===== src/Ioctl/Buffers.antt =====
-- The ten buffers that cuddlk_manager_ioctl allocates before it takes the lock and frees at the end.
use cuddl.Base.{ℕ, Bool, List, [], ◌∷◌, enomem, ◌==◌, if◌then◌else◌}
use cuddl.Kernel.{Kernel, M, Buffer, ◌>>=◌, ◌>>◌, pure, raise, modify}

abbrev buffer_index : Buffer → ℕ
buffer_index Buffer.mdata = 0
buffer_index Buffer.edata = 1
buffer_index Buffer.mrdata = 2
buffer_index Buffer.erdata = 3
buffer_index Buffer.get_id_data = 4
buffer_index Buffer.commit_data = 5
buffer_index Buffer.driver_info_data = 6
buffer_index Buffer.void_data = 7
buffer_index Buffer.id_data = 8
buffer_index Buffer.is_enabled_data = 9

-- In the order of their allocation.
abbrev pub all_buffers : List Buffer
all_buffers =
    Buffer.mdata ∷ Buffer.edata ∷ Buffer.mrdata ∷ Buffer.erdata ∷ Buffer.get_id_data
    ∷ Buffer.commit_data ∷ Buffer.driver_info_data ∷ Buffer.void_data ∷ Buffer.id_data
    ∷ Buffer.is_enabled_data ∷ []

-- In the order in which the end of the function frees them.
abbrev pub all_freed : List Buffer
all_freed =
    Buffer.is_enabled_data ∷ Buffer.id_data ∷ Buffer.void_data ∷ Buffer.driver_info_data
    ∷ Buffer.commit_data ∷ Buffer.get_id_data ∷ Buffer.erdata ∷ Buffer.mrdata ∷ Buffer.edata
    ∷ Buffer.mdata ∷ []

unfoldable pub without_buffer : Buffer → List Buffer → List Buffer
without_buffer b [] = []
without_buffer b (x ∷ xs) =
    let rest = without_buffer b xs in if buffer_index b == buffer_index x then xs else x ∷ rest

abbrev with_buffer : Buffer → Kernel → Kernel
with_buffer b k = record k { buffers = b ∷ k.buffers }

abbrev freed_buffer : Buffer → Kernel → Kernel
freed_buffer b k = record k { buffers = without_buffer b k.buffers }

unfoldable pub free_buffers : List Buffer → M (Unit {0})
unfolding ◌>>=◌ modify without_buffer
free_buffers [] = pure tt
free_buffers (b ∷ bs) = let rest = free_buffers bs in modify (freed_buffer b) >> rest

-- Each failing allocation frees those before it, the latest first, and returns -ENOMEM.
unfoldable pub alloc_buffers : (Buffer → Bool) → List Buffer → List Buffer → M (Unit {0})
unfolding ◌>>=◌ modify free_buffers
alloc_buffers succeeds done [] = pure tt
alloc_buffers succeeds done (b ∷ bs) =
    let rest = alloc_buffers succeeds (b ∷ done) bs in
    if succeeds b then (modify (with_buffer b) >> rest) else (free_buffers done >> raise enomem)
