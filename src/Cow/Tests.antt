-- ===== src/Cow/Tests.antt =====
-- The theorems on the manager, at the sample.
use moocbt.Common.{
  ℕ, ◌≤◌, ◌≡◌, ◌≢◌, ok, err, true, take, drop, inl, refl, false, [], ◌∷◌, some, arith,
}
use moocbt.Bytes.Store.{bytes_at}
use moocbt.Kernel.Ram.{Ram, ram, ram-IsKernel}
use moocbt.Cow.Inv.{Ends, mapping, Keeps}
use moocbt.Cow.Snapshot.{IsSnapshot, InRange, Saves, run_writes, spec_writes, saved}
use moocbt.Cow.Snapshot.First.{NothingLost, SavedOne}
use moocbt.Cow.Snapshot.Refine.{write_current-Ends}
use moocbt.Cow.Snapshot.Sequence.{run_writes-Ends}
use moocbt.Cow.Snapshot.ReadBack.{read_data-Ends}
use moocbt.Cow.Mapping.{write_current, read_data, read_mapping, write_mapping}
use moocbt.Cow.Mapping.Lookup.{read_mapping-Ends}
use moocbt.Cow.Mapping.Store.{Sets, SetsOrKeeps, write_mapping-Ends}
use moocbt.Cow.Sections.{sync_and_free_sections}
use moocbt.Cow.Sections.Sync.{sync_and_free_sections-Ends}
use moocbt.Cow.Cleanup.{cleanup_mappings, threshold, max_usage}
use moocbt.Cow.Cleanup.Median.{threshold_lem}
use moocbt.Cow.Cleanup.Evict.{cleanup_mappings-Ends, cleanup_mappings_cold}
use moocbt.Cow.Header.{encode, decode, header_of, write_header, open_header}
use moocbt.Cow.Header.Codec.{HeaderFits}
use moocbt.Cow.State.{Cow, World}
use moocbt.Cow.Io.{file_write}
use moocbt.Cow.Header.Reopen.{Reopened, open_header-write_header}
use moocbt.Cow.Header.Save.{open_header_refuses}
use moocbt.Bytes.Codec.{le_val, le_bytes}
use moocbt.Cow.Sample.{manager, world, world-IsValid, world-IsSnapshot, block, length-block}

write_current-Ends_example :
    Ends
      (NothingLost ram-IsKernel world)
      (λ _ w'. SavedOne ram-IsKernel world 0 (block 9) w')
      (write_current ram 0 (block 9) world)
write_current-Ends_example =
    write_current-Ends ram-IsKernel world 0 (block 9) world-IsSnapshot (omega arith)
      (length-block 9)

-- block 3 already has its data; block 0 is written twice
abbrev writes : Saves
writes = (0, block 9) ∷ (3, block 8) ∷ (0, block 7) ∷ []

run_writes-Ends_example :
    Ends
      (NothingLost ram-IsKernel world)
      (λ _ w'.
        IsSnapshot ram-IsKernel w'
        × ((pos : ℕ)
            → InRange ram-IsKernel world pos
            → saved ram-IsKernel w' pos ≡ spec_writes writes (saved ram-IsKernel world) pos))
      (run_writes ram writes world)
run_writes-Ends_example = run_writes-Ends ram-IsKernel writes world world-IsSnapshot (
  (omega arith, length-block 9),
  ((omega arith, length-block 8), ((omega arith, length-block 7), tt)),
)

read_data-Ends_example :
    Ends
      (λ w'. ram-IsKernel.content w'.sys ≡ ram-IsKernel.content world.sys)
      (λ bs w'.
        (ram-IsKernel.content w'.sys ≡ ram-IsKernel.content world.sys)
        × (bs ≡ take 1024 (drop 512 (bytes_at (ram-IsKernel.content world.sys) 20480 4096))))
      (read_data ram (mapping ram-IsKernel world 3) 512 1024 world)
read_data-Ends_example =
    read_data-Ends ram-IsKernel world 3 512 1024
      (bytes_at (ram-IsKernel.content world.sys) 20480 4096) world-IsSnapshot (omega arith) refl
      (omega arith) (omega arith)

read_mapping-Ends_example :
    Ends
      (Keeps ram-IsKernel world)
      (λ out w'. Keeps ram-IsKernel world w' × (out ≡ mapping ram-IsKernel world 3))
      (read_mapping ram 3 world)
read_mapping-Ends_example = read_mapping-Ends ram-IsKernel world 3 world-IsValid (omega arith)

write_mapping-Ends_example :
    Ends
      (SetsOrKeeps ram-IsKernel world 0 1 7)
      (λ _ w'. Sets ram-IsKernel world 0 1 7 w')
      (write_mapping ram 1 7 world)
write_mapping-Ends_example =
    write_mapping-Ends ram-IsKernel world 1 7 world-IsValid (omega arith) (omega arith)

sync_and_free_sections-Ends_example :
    Ends
      (Keeps ram-IsKernel world)
      (λ _ w'. Keeps ram-IsKernel world w' × (◌≡◌ {A = ℕ} 0 0 → w'.cm.allocated_sects ≡ 0))
      (sync_and_free_sections ram 0 world)
sync_and_free_sections-Ends_example = sync_and_free_sections-Ends ram-IsKernel 0 world world-IsValid

cleanup_mappings-Ends_example :
    Ends
      (Keeps ram-IsKernel world)
      (λ _ w'. Keeps ram-IsKernel world w')
      (cleanup_mappings ram world)
cleanup_mappings-Ends_example = cleanup_mappings-Ends ram-IsKernel world world-IsValid

cleanup_mappings_cold_example :
    Ends (Keeps ram-IsKernel world) (λ _ w'. w'.cm.allocated_sects ≡ 0) (cleanup_mappings ram world)
cleanup_mappings_cold_example =
    cleanup_mappings_cold ram-IsKernel world world-IsValid (omega arith, (omega arith, tt))

threshold_lem_example :
    (r : ℕ) × (threshold manager.sects ≡ some r) × (r ≤ max_usage 0 manager.sects)
unfolding max_usage
threshold_lem_example = threshold_lem manager.sects (omega arith)

manager-HeaderFits : HeaderFits (header_of manager)
manager-HeaderFits = record {
  magic = omega arith;
  flags = omega arith;
  fpos = omega arith;
  fsize = omega arith;
  seqid = omega arith;
  uuid = refl;
  version = omega arith;
  changed = omega arith;
}

-- another manager, which has opened nothing yet
abbrev other : Cow
other = record manager { flags = 2; curr_pos = 0; uuid = []; seqid = 0; nr_changed_blocks = 0 }

abbrev saved_world : World Ram
saved_world = (write_header ram true world).1

saves : write_header ram true world ≡ (ok tt, saved_world)
unfolding write_header encode le_bytes file_write
saves = refl

open_header-write_header_example :
    Reopened ram-IsKernel true manager other saved_world.sys
      (open_header ram false true (record { cm = other; sys = saved_world.sys }))
open_header-write_header_example =
    open_header-write_header ram-IsKernel true world saved_world other tt tt manager-HeaderFits
      saves

-- the file starts with the bytes 0, 1, 2 and 3
not_magic : (decode (bytes_at (ram-IsKernel.content world.sys) 0 64)).magic ≢ 4776
unfolding decode bytes_at le_val ram-IsKernel
not_magic e = absurd (omega arith)

open_header_refuses_example :
    (e : ℕ) × (f : Ram) × (open_header ram false false world ≡ (err e, record world { sys = f }))
    × (ram-IsKernel.content f ≡ ram-IsKernel.content world.sys)
open_header_refuses_example = open_header_refuses ram-IsKernel false false world tt (inl not_magic)
