-- ===== src/Cow/Sections.antt =====
-- The sections of the index: loading one from the file, writing one back, and the loop that
-- writes back and frees those of little use.
pub mod Cache
pub mod Equations
pub mod Sync
use moocbt.Common.{
  ℕ, zero, suc, ◌+◌, ◌*◌, ◌/◌, Bool, true, false, not, ◌&&◌, ◌||◌, List, Option, none, some, Result,
  ok, err, oops, enomem, ltb, leb, ◌==◌, if◌then◌else◌,
}
use moocbt.Word.{add64, sub64, mul64}
use moocbt.Bytes.Words.{bytes_of_words, parse_words}
use moocbt.Kernel.{Kernel}
use moocbt.Cow.State.{
  fault, Section, Cow, World, M, pure, fail, ◌>>=◌, ◌>>◌, get_cm, put_cm, when, on_error, sect_at,
  put_sect,
}
use moocbt.Cow.Io.{file_read, file_write, get_pages}

abbrev pub cow_header_size : ℕ
cow_header_size = 4096

abbrev pub is_loaded : Section → Bool
is_loaded s = elim s.mappings [ none ↦ false | some _ ↦ true ]

-- whether the loop of `__cow_sync_and_free_sections` frees a section
abbrev pub is_evicted : ℕ → Section → Bool
is_evicted thresh s = is_loaded s && (thresh == 0 || leb s.usage thresh)

-- The loop condition, beside `i < cm->total_sects`.
abbrev pub sync_goes_on : ℕ → Cow → Bool
sync_goes_on thresh cm = thresh == 0 || ltb (cm.allowed_sects / 2) cm.allocated_sects

-- `cm->sect_size * sect_idx * 8 + COW_HEADER_SIZE`
abbrev pub sect_offset : ℕ → ℕ → ℕ
sect_offset ss i = add64 (mul64 (mul64 ss i) 8) cow_header_size

module _ {F : Type 0} where
  -- `__cow_free_section`
  unfoldable pub free_section : ℕ → M F (Unit {0})
  free_section i = do
    s ← sect_at i
    put_sect i (record s { mappings = none })
    cm ← get_cm
    put_cm (record cm { allocated_sects = sub64 cm.allocated_sects 1 })

module _ {F : Type 0} (K : Kernel F) where
  -- `__cow_alloc_section`
  unfoldable pub alloc_section : ℕ → Bool → M F (Unit {0})
  alloc_section i zeroed = do
    cm ← get_cm
    s ← sect_at i
    pages ← get_pages K cm.log_sect_pages cm.sect_size zeroed
    elim pages [
      | none ↦ do put_sect i (record s { mappings = none }); fail enomem
      | some ms ↦ do
        put_sect i (record s { mappings = some ms; has_data = true })
        cm' ← get_cm
        put_cm (record cm' { allocated_sects = add64 cm'.allocated_sects 1 })
    ]

  -- the clean-up of `__cow_load_section`
  unfoldable pub drop_section : ℕ → M F (Unit {0})
  drop_section i = do s ← sect_at i; when (is_loaded s) (free_section i)

  -- the array that `file_read` has filled
  unfoldable pub fill_section : ℕ → List ℕ → M F (Unit {0})
  fill_section i ms = do s ← sect_at i; put_sect i (record s { mappings = some ms })

  -- `__cow_load_section`
  unfoldable pub load_section : ℕ → M F (Unit {0})
  load_section i = on_error (drop_section i) do
    alloc_section i false
    cm ← get_cm
    bs ← file_read K (sect_offset cm.sect_size i) (mul64 cm.sect_size 8)
    fill_section i (parse_words cm.sect_size bs)

  -- `__cow_write_section`
  unfoldable pub write_section : ℕ → M F (Unit {0})
  write_section i = do
    cm ← get_cm
    s ← sect_at i
    elim s.mappings [
      | none ↦ fault
      | some ms ↦ file_write K (sect_offset cm.sect_size i) (bytes_of_words ms)
    ]

  abbrev pub evict_section : ℕ → M F (Unit {0})
  evict_section i = do write_section i; free_section i

  unfoldable pub reset_usage : ℕ → M F (Unit {0})
  reset_usage i = do s ← sect_at i; put_sect i (record s { usage = 0 })

  -- one round of the loop of `__cow_sync_and_free_sections`, at a section that it visits
  unfoldable pub sync_section : ℕ → ℕ → M F (Unit {0})
  sync_section thresh i = do
    s ← sect_at i
    when (is_evicted thresh s) (evict_section i)
    reset_usage i

  -- the loop from section `i` on, with `n` sections left
  unfoldable pub sync_from : ℕ → ℕ → ℕ → M F (Unit {0})
  sync_from thresh zero i = pure tt
  sync_from thresh (suc n) i = do
    cm ← get_cm
    when (sync_goes_on thresh cm) do sync_section thresh i; sync_from thresh n (i + 1)

  -- `__cow_sync_and_free_sections`
  unfoldable pub sync_and_free_sections : ℕ → M F (Unit {0})
  sync_and_free_sections thresh = do cm ← get_cm; sync_from thresh cm.total_sects 0
