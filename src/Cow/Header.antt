-- ===== src/Cow/Header.antt =====
-- The header of the file: its layout, `__cow_write_header` and `__cow_open_header`.
pub mod Codec
pub mod Save
pub mod Reopen
use moocbt.Common.{
  ℕ, ◌+◌, ◌*◌, Bool, true, false, not, ◌&&◌, ◌||◌, List, ◌++◌, Option, none, some, einval, take,
  drop, ◌==◌, if◌then◌else◌,
}
use moocbt.Flags.{test_bit, set_bit, clear_bit, cow_clean, cow_index_only, cow_vmalloc_upper}
use moocbt.Bytes.Codec.{le_bytes, le_val}
use moocbt.Kernel.{Kernel}
use moocbt.Cow.State.{Cow, M, pure, fail, ◌>>=◌, ◌>>◌, get_cm, put_cm}
use moocbt.Cow.Io.{file_read, file_write}

abbrev pub cow_magic : ℕ
cow_magic = 4776

-- `struct cow_header`
pub record CowHeader : Type 0 where
  pub magic : ℕ
  pub flags : ℕ
  pub fpos : ℕ
  pub fsize : ℕ
  pub seqid : ℕ
  pub uuid : List ℕ
  pub version : ℕ
  pub nr_changed_blocks : ℕ

-- the bytes of the struct, which has no padding, and their number
abbrev pub header_size : ℕ
header_size = 64

unfoldable pub encode : CowHeader → List ℕ
encode h =
    le_bytes 4 h.magic
    ++ (le_bytes 4 h.flags
        ++ (le_bytes 8 h.fpos
            ++ (le_bytes 8 h.fsize
                ++ (le_bytes 8 h.seqid
                    ++ (h.uuid ++ (le_bytes 8 h.version ++ le_bytes 8 h.nr_changed_blocks))))))

unfoldable pub decode : List ℕ → CowHeader
decode bs = record {
  magic = le_val (take 4 bs);
  flags = le_val (take 4 (drop 4 bs));
  fpos = le_val (take 8 (drop 8 bs));
  fsize = le_val (take 8 (drop 16 bs));
  seqid = le_val (take 8 (drop 24 bs));
  uuid = take 16 (drop 32 bs);
  version = le_val (take 8 (drop 48 bs));
  nr_changed_blocks = le_val (take 8 (drop 56 bs));
}

abbrev pub header_of : Cow → CowHeader
header_of cm = record {
  magic = cow_magic;
  flags = cm.flags;
  fpos = cm.curr_pos;
  fsize = cm.file_size;
  seqid = cm.seqid;
  uuid = cm.uuid;
  version = cm.version;
  nr_changed_blocks = cm.nr_changed_blocks;
}

-- what a valid header sets in the manager
abbrev pub load_header : Bool → CowHeader → Cow → Cow
load_header reset_vmalloc h cm = record cm {
  flags = if reset_vmalloc then clear_bit h.flags cow_vmalloc_upper else h.flags;
  curr_pos = h.fpos;
  file_size = h.fsize;
  seqid = h.seqid;
  uuid = h.uuid;
  version = h.version;
  nr_changed_blocks = h.nr_changed_blocks;
}

-- The three tests of `__cow_open_header`, in order: magic, clean flag, mode.
abbrev pub header_fits : Bool → CowHeader → Bool
header_fits index_only h =
    h.magic == cow_magic
    && (test_bit h.flags cow_clean
        && not (
            (test_bit h.flags cow_index_only && not index_only)
            || (not (test_bit h.flags cow_index_only) && index_only)))

module _ {F : Type 0} (K : Kernel F) where
  -- `__cow_write_header`
  unfoldable pub write_header : Bool → M F (Unit {0})
  write_header is_clean = do
    cm ← get_cm
    put_cm (record cm {
      flags = if is_clean then set_bit cm.flags cow_clean else clear_bit cm.flags cow_clean;
    })
    cm' ← get_cm
    file_write K 0 (encode (header_of cm'))

  -- `__cow_open_header`
  unfoldable pub open_header : Bool → Bool → M F (Unit {0})
  open_header index_only reset_vmalloc = do
    bs ← file_read K 0 header_size
    let ch = decode bs
    if header_fits index_only ch
        then (do cm ← get_cm; put_cm (load_header reset_vmalloc ch cm); write_header false)
        else fail einval
