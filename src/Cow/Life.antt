-- ===== src/Cow/Life.antt =====
-- The life of a manager: creation, reloading, closing, reopening, and its release.
use moocbt.Common.{
  ℕ, ◌+◌, ◌-◌, ◌*◌, ◌/◌, ◌^◌, Bool, true, false, List, [], Option, none, some, Result, ok, err,
  oops, enomem, replicate, leb, if◌then◌else◌,
}
use moocbt.Word.{add64, sub64, mul64}
use moocbt.Flags.{test_bit, set_bit, cow_index_only, cow_vmalloc_upper}
use moocbt.Kernel.{Kernel}
use moocbt.Cow.State.{
  null, Section, Cow, World, M, pure, fail, ◌>>=◌, ◌>>◌, get_cm, put_cm, on_error,
}
use moocbt.Cow.Io.{open_cow_file, close_if_open, unlink_if_open, file_truncate, file_allocate}
use moocbt.Cow.Sections.{cow_header_size, sync_and_free_sections}
use moocbt.Cow.Header.{write_header, open_header}
use moocbt.Cow.Mapping.{cow_block_size, cow_version_changed_blocks}

-- `COW_SECTION_SIZE`, and `sizeof(struct cow_section)`
abbrev pub cow_section_size : ℕ
cow_section_size = 4096

abbrev pub sizeof_section : ℕ
sizeof_section = 24

-- `__cow_calculate_allowed_sects`
unfoldable pub calculate_allowed_sects : ℕ → ℕ → ℕ
calculate_allowed_sects cache_size total_sects =
    if leb cache_size (mul64 total_sects sizeof_section)
    then 0
    else (cache_size - mul64 total_sects sizeof_section) / (cow_section_size * 8)

-- `NUM_SEGMENTS`: how many segments of `2 ^ log_size` hold `x`
unfoldable pub num_segments : ℕ → ℕ → ℕ
num_segments x log_size = sub64 (add64 x (2 ^ log_size)) 1 / 2 ^ log_size

-- what `kzalloc` leaves in the struct and in each section
abbrev pub zero_cow : Cow
zero_cow = record {
  dfilp = null;
  flags = 0;
  curr_pos = 0;
  data_offset = 0;
  file_size = 0;
  seqid = 0;
  version = 0;
  nr_changed_blocks = 0;
  uuid = replicate 16 0;
  log_sect_pages = 0;
  sect_size = 0;
  allocated_sects = 0;
  total_sects = 0;
  allowed_sects = 0;
  sects = [];
}

abbrev pub zero_section : Section
zero_section = record { has_data = false; usage = 0; mappings = none }

module _ {F : Type 0} (K : Kernel F) where
  -- the geometry, which `cow_init` and `cow_reload` compute alike
  unfoldable pub set_geometry : ℕ → ℕ → ℕ → Cow → Cow
  unfolding calculate_allowed_sects num_segments
  set_geometry elements sect_size cache_size cm =
      let order = K.get_order (mul64 sect_size 8) in
      let total = num_segments elements (order + 12 - 3) in
      record cm {
        allocated_sects = 0;
        sect_size = sect_size;
        log_sect_pages = order;
        total_sects = total;
        allowed_sects = calculate_allowed_sects cache_size total;
        data_offset = add64 cow_header_size (mul64 total (mul64 sect_size 8));
      }

  abbrev pub kzalloc : ℕ → M F Bool
  kzalloc n w = let (r, f) = K.kzalloc w.sys n in (ok r, record w { sys = f })

  -- the array of sections, by `kzalloc` or else by `vzalloc`, with this section in each place
  unfoldable pub alloc_sects : Section → M F (Unit {0})
  alloc_sects s = do
    cm ← get_cm
    small ← kzalloc (mul64 cm.total_sects sizeof_section)
    if small then put_cm (record cm { sects = replicate cm.total_sects s }) else (do
      put_cm (record cm { flags = set_bit cm.flags cow_vmalloc_upper })
      large ← kzalloc (mul64 cm.total_sects sizeof_section)
      if large
          then (do cm' ← get_cm; put_cm (record cm' { sects = replicate cm'.total_sects s }))
          else fail enomem)

  -- What is done once the struct is allocated. Without the struct the error path reads `cm->dfilp`
  -- through NULL. The array and the struct are freed on errors; they are not part of the state.
  abbrev pub with_struct : M F (Unit {0}) → F → Result Cow × F
  with_struct body f =
      let (room, g) = K.kzalloc f 152 in
      if room then finish (body (record { cm = zero_cow; sys = g })) else (oops, g)
    where
      finish : Result (Unit {0}) × World F → Result Cow × F
      finish (ok _, w) = (ok w.cm, w.sys)
      finish (err e, w) = (err e, w.sys)
      finish (oops, w) = (oops, w.sys)

  -- `cow_reload`; every section is marked as having data
  unfoldable pub reload : ℕ → ℕ → ℕ → Bool → F → Result Cow × F
  unfolding set_geometry alloc_sects
  reload elements sect_size cache_size index_only = with_struct (
      on_error (close_if_open K) do
        open_cow_file K false
        cm ← get_cm
        put_cm (set_geometry elements sect_size cache_size cm)
        open_header K index_only true
        alloc_sects (record zero_section { has_data = true }))

  abbrev pub random_uuid : M F (List ℕ)
  random_uuid w = let (r, f) = K.random_uuid w.sys in (ok r, record w { sys = f })

  -- `cow_init`
  unfoldable pub init : ℕ → ℕ → ℕ → ℕ → Option (List ℕ) → ℕ → F → Result Cow × F
  unfolding set_geometry alloc_sects
  init elements sect_size cache_size file_max uuid seqid = with_struct (
      on_error (unlink_if_open K) do
        open_cow_file K true
        cm ← get_cm
        let cm' = set_geometry elements sect_size cache_size (record cm {
          version = cow_version_changed_blocks;
          nr_changed_blocks = 0;
          flags = 0;
          file_size = file_max;
          seqid = seqid;
        })
        id ← elim uuid [ some u ↦ pure u | none ↦ random_uuid ]
        put_cm (record cm' { curr_pos = cm'.data_offset / cow_block_size; uuid = id })
        alloc_sects zero_section
        file_allocate K 0 file_max
        write_header K false)

  -- `cow_free_members`; the pages of the sections are freed with the array
  unfoldable pub free_members : M F (Unit {0})
  free_members = do cm ← get_cm; put_cm (record cm { sects = [] }); unlink_if_open K

  -- `cow_sync_and_close`
  unfoldable pub sync_and_close : M F (Unit {0})
  unfolding free_members
  sync_and_close =
      on_error free_members do sync_and_free_sections K 0; write_header K true; close_if_open K

  -- `cow_sync_and_free`, which then frees the struct
  unfoldable pub sync_and_free : M F (Unit {0})
  unfolding free_members
  sync_and_free =
      on_error free_members do sync_and_free_sections K 0; write_header K true; close_if_open K

  -- `cow_reopen`
  unfoldable pub reopen : M F (Unit {0})
  reopen =
      on_error (close_if_open K) do
        open_cow_file K false
        cm ← get_cm
        open_header K (test_bit cm.flags cow_index_only) false

  -- `cow_truncate_to_index`
  unfoldable pub truncate_to_index : M F (Unit {0})
  truncate_to_index = do
    cm ← get_cm
    put_cm (record cm { flags = set_bit cm.flags cow_index_only })
    file_truncate K cm.data_offset
    cm' ← get_cm
    put_cm (record cm' { file_size = cm'.data_offset })

  -- `cow_modify_cache_size`
  unfoldable pub modify_cache_size : ℕ → M F (Unit {0})
  unfolding calculate_allowed_sects
  modify_cache_size cache_size = do
    cm ← get_cm
    put_cm (record cm { allowed_sects = calculate_allowed_sects cache_size cm.total_sects })
