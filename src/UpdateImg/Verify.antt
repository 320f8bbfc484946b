-- ===== src/UpdateImg/Verify.antt =====
-- What the checks of `verify_files` accept.
use moocbt.Common.{ℕ, ◌≡◌, ◌↔◌, Bool, true, List, arith, einval, ◌==◌, if◌then◌else◌}
use moocbt.Word.{sub64}
use moocbt.Cow.Header.{CowHeader, cow_magic}
use moocbt.UpdateImg.{Files, Info, whole, verify_files}

-- the cow file belongs to the snapshot before that of the driver
abbrev pub Follows : CowHeader → Info → Type 0
Follows ch info =
    (ch.magic ≡ cow_magic) × (ch.uuid ≡ info.info_uuid) × (ch.seqid ≡ sub64 info.info_seqid 1)

-- the tests on the header, with the outcome of `memcmp`
accepts :
    (t : Bool) (m q s : ℕ)
    → (if m == cow_magic then if t then if q == s then 0 else einval else einval else einval) ≡ 0
    → (m ≡ cow_magic) × (t ≡ true) × (q ≡ s)
accepts t m q s h = ground arith

accepted :
    (t : Bool) (m q s : ℕ)
    → m ≡ cow_magic
    → t ≡ true
    → q ≡ s
    → (if m == cow_magic then if t then if q == s then 0 else einval else einval else einval) ≡ 0
accepted t m q s a b c = ground arith

-- `verify_files`, when memory, the driver and the header can be had and `memcmp` tells equal uuids,
-- accepts a cow file exactly if its magic number is right, it has the uuid of the snapshot, and its
-- sequence number is one less than the snapshot's.
pub verify_files-Follows :
    {F : Type 0} (K : Files F) (ch : CowHeader) (info : Info)
    → K.malloc 0 ≡ true
    → K.moocbt_info ≡ whole info
    → K.pread_header ≡ whole ch
    → ((a b : List ℕ) → K.memcmp a b ≡ true ↔ a ≡ b)
    → (verify_files K ≡ 0) ↔ Follows ch info
unfolding verify_files
verify_files-Follows K ch info m i h same =
    rw (m, i, h)
      (
        (λ z.
            let (a, b, c) =
              accepts (K.memcmp ch.uuid info.info_uuid) ch.magic ch.seqid (sub64 info.info_seqid 1)
                z in
            (a, (same ch.uuid info.info_uuid).0 b, c)),
        (λ f.
            accepted (K.memcmp ch.uuid info.info_uuid) ch.magic ch.seqid (sub64 info.info_seqid 1)
              f.0 ((same ch.uuid info.info_uuid).1 f.1) f.2),
      )
