-- ===== src/Cow/Header/Codec.antt =====
-- The header that is written is the header that is read.
use moocbt.Common.{
  ℕ, ◌<◌, ◌≡◌, ◌^◌, refl, ap, ◌∙◌, List, ◌++◌, length, take, drop, take-append, drop-append, arith,
  length-append,
}
use moocbt.Bytes.Codec.{le_bytes, le_val, le_val-le_bytes}
use moocbt.Bytes.Words.{drop-drop}
use moocbt.Cow.Header.{CowHeader, encode, decode}

-- each field fits in its type
pub record HeaderFits (h : CowHeader) : Type 0 where
  pub magic : h.magic < 2 ^ 32
  pub flags : h.flags < 2 ^ 32
  pub fpos : h.fpos < 2 ^ 64
  pub fsize : h.fsize < 2 ^ 64
  pub seqid : h.seqid < 2 ^ 64
  pub uuid : length h.uuid ≡ 16
  pub version : h.version < 2 ^ 64
  pub changed : h.nr_changed_blocks < 2 ^ 64

tail : CowHeader → List ℕ
tail h = le_bytes 8 h.version ++ le_bytes 8 h.nr_changed_blocks

uuid_of : (h : CowHeader) → length h.uuid ≡ 16 → take 16 (h.uuid ++ tail h) ≡ h.uuid
uuid_of h e = rw (← e) (take-append h.uuid (tail h))

after_uuid : (h : CowHeader) → length h.uuid ≡ 16 → drop 16 (h.uuid ++ tail h) ≡ tail h
after_uuid h e = rw (← e) (drop-append h.uuid (tail h))

at_48 : (h : CowHeader) → length h.uuid ≡ 16 → take 8 (drop 48 (encode h)) ≡ le_bytes 8 h.version
unfolding encode le_bytes tail
at_48 h e = rw (after_uuid h e)

at_56 :
    (h : CowHeader)
    → length h.uuid ≡ 16
    → take 8 (drop 56 (encode h)) ≡ le_bytes 8 h.nr_changed_blocks
unfolding encode le_bytes tail
at_56 h e = rw (← drop-drop (h.uuid ++ tail h) 16 8 24 refl, after_uuid h e)

at_32 : (h : CowHeader) → length h.uuid ≡ 16 → take 16 (drop 32 (encode h)) ≡ h.uuid
unfolding encode le_bytes tail
at_32 h e = uuid_of h e

first_fields :
    (h : CowHeader)
    → (take 4 (encode h) ≡ le_bytes 4 h.magic)
      × (take 4 (drop 4 (encode h)) ≡ le_bytes 4 h.flags)
      × (take 8 (drop 8 (encode h)) ≡ le_bytes 8 h.fpos)
      × (take 8 (drop 16 (encode h)) ≡ le_bytes 8 h.fsize)
      × (take 8 (drop 24 (encode h)) ≡ le_bytes 8 h.seqid)
unfolding encode le_bytes
first_fields h = (refl, refl, refl, refl, refl)

pub length-encode : (h : CowHeader) → length h.uuid ≡ 16 → length (encode h) ≡ 64
unfolding encode le_bytes tail
length-encode h e = omega (arith, length-append h.uuid (tail h), e)

-- `decode` undoes `encode`, for a header whose fields fit in their types.
pub decode-encode : (h : CowHeader) → HeaderFits h → decode (encode h) ≡ h
unfolding decode
decode-encode h f =
    let (magic, flags, fpos, fsize, seqid) = first_fields h in
    let magic' = ap le_val magic ∙ le_val-le_bytes 4 h.magic f.magic in
    let flags' = ap le_val flags ∙ le_val-le_bytes 4 h.flags f.flags in
    let fpos' = ap le_val fpos ∙ le_val-le_bytes 8 h.fpos f.fpos in
    let fsize' = ap le_val fsize ∙ le_val-le_bytes 8 h.fsize f.fsize in
    let seqid' = ap le_val seqid ∙ le_val-le_bytes 8 h.seqid f.seqid in
    let version' = ap le_val (at_48 h f.uuid) ∙ le_val-le_bytes 8 h.version f.version in
    let changed' = ap le_val (at_56 h f.uuid) ∙ le_val-le_bytes 8 h.nr_changed_blocks f.changed in
    λ i. record {
      magic = magic' i;
      flags = flags' i;
      fpos = fpos' i;
      fsize = fsize' i;
      seqid = seqid' i;
      uuid = at_32 h f.uuid i;
      version = version' i;
      nr_changed_blocks = changed' i;
    }
