-- ===== src/Trace/Range.antt =====
-- The sectors that the clones of a write cover.
use moocbt.Common.{ℕ, ◌+◌, ◌-◌, ◌*◌, ◌/◌, ◌%◌, ◌^◌, ◌≤◌, ◌<◌, ◌≡◌, arith}
use moocbt.Trace.{round_down, round_up, start_sect, end_sect, pages_of}

-- For a write behind the start of the device whose end, rounded up, does not wrap: the clones start
-- and end at a whole block of the device, contain the sectors of the write, and reach less than a
-- block beyond it at either end; and the pages are counted right.
pub pages_of_lem :
    (off sector size : ℕ)
    → off ≤ sector
    → sector + size / 512 + 8 < 2 ^ 64
    → size < 2 ^ 32
    → (let start = start_sect off sector in
        let end = end_sect off sector size in
        (off ≤ start)
        × ((start - off) % 8 ≡ 0)
        × (start ≤ sector)
        × (sector < start + 8)
        × (sector + size / 512 ≤ end)
        × (end < sector + size / 512 + 8)
        × (start + pages_of off sector size * 8 ≡ end))
unfolding pages_of start_sect end_sect round_down round_up
pages_of_lem off sector size a b c =
    (omega arith, omega arith, omega arith, omega arith, omega arith, omega arith, omega arith)
