-- ===== src/Tests/Pages.antt =====
-- Rounding up to pages.
use cuddl.Base.{◌+◌, ◌<◌, ◌≤◌, ◌%◌, ◌≡◌, arith}
use cuddl.Register.{page_size_aligned}
use cuddl.Register.Pages.{page_size_aligned_lem}

page_size_aligned_lem_example :
    (page_size_aligned 4096 5000 % 4096 ≡ 0)
    × (5000 ≤ page_size_aligned 4096 5000)
    × (page_size_aligned 4096 5000 < 5000 + 4096)
page_size_aligned_lem_example =
    page_size_aligned_lem 4096 5000 (omega arith) (omega arith) (omega arith)
