-- ===== src/Kernel/FdtMem/Trim.antt =====
-- `trim_or_split_around_reserved` of kernel/of/fdt_mem.c.
pub mod Coverage
use riscy_os.Prelude.{ℕ, Option, none, some, Ptr, null, ltb, leb, if◌then◌else◌, ◌||◌, add64, sub64}

-- The region behind the call, and the second one if it was split.
pub record Trimmed : Type 0 where
  pub start : Ptr
  pub size : ℕ
  pub split : Option (Ptr × ℕ)

abbrev one_region : Ptr → ℕ → Trimmed
one_region start size = record { start = start; size = size; split = none }

unfoldable pub trim_or_split_around_reserved : Ptr → ℕ → Ptr → ℕ → Trimmed
trim_or_split_around_reserved start size resv_start resv_size =
    let end = add64 start size in
    let resv_end = add64 resv_start resv_size in
    if leb resv_end start || ltb end resv_start
    then one_region start size
    else if leb resv_start start
    then (if leb end resv_end then one_region null 0 else one_region resv_end (sub64 end resv_end))
    else if ltb resv_end end
    then record {
      start = start;
      size = sub64 resv_start start;
      split = some (resv_end, sub64 end resv_end);
    }
    else one_region start (sub64 resv_start start)
