-- ===== src/Trace/Exact.antt =====
-- The sector sets that `inc_trace_bio` queues are those of the write.
use moocbt.Common.{
  ℕ, ◌+◌, ◌-◌, ◌/◌, ◌%◌, ◌^◌, ◌≡◌, ◌≤◌, ◌<◌, refl, ◌∙◌, Bool, true, false, Bool-cases, inl, inr,
  List, [], ◌∷◌, ◌++◌, length, ltb, ◌==◌, if◌then◌else◌, arith,
}
use moocbt.Word.{add64, sub64}
use moocbt.Tracer.{SnapDevice, Bio, set_fail_state}
use moocbt.Snap.{SectorSet}
use moocbt.Trace.Clones.{at}
use moocbt.Trace.Marks.{
  Segment, Marked, inc_make_sset, flush, unless_failed, inc_segments, inc_out, inc_trace_bio,
}

-- how many of the sets contain a sector
abbrev pub sets_at : ℕ → List SectorSet → ℕ
sets_at k [] = 0
sets_at k (s ∷ q) = at s.sect s.len k + sets_at k q

-- 1 if the sector lies in a segment whose page is not of the cow file
abbrev pub foreign_at : ℕ → ℕ → List Segment → ℕ → ℕ
foreign_at cow_inode sect [] k = 0
foreign_at cow_inode sect (v ∷ vs) k =
    (if v.inode == cow_inode then 0 else at sect (v.len / 512) k)
    + foreign_at cow_inode (sect + v.len / 512) vs k

abbrev pub sectors_of : List Segment → ℕ
sectors_of [] = 0
sectors_of (v ∷ vs) = v.len / 512 + sectors_of vs

abbrev Exact : ℕ → ℕ → Marked → Type 0
Exact k n r = r.ret ≡ 0 → sets_at k r.ssets ≡ n

sets_at-append :
    (k : ℕ) (q : List SectorSet) (s : SectorSet)
    → sets_at k (q ++ (s ∷ [])) ≡ sets_at k q + at s.sect s.len k
sets_at-append k [] s = omega arith
sets_at-append k (x ∷ q) s = omega (arith, sets_at-append k q s)

if-Exact :
    (k n : ℕ) (c : Bool) (r s : Marked)
    → (c ≡ true → Exact k n r)
    → (c ≡ false → Exact k n s)
    → Exact k n (if c then r else s)
if-Exact k n true r s a b = a refl
if-Exact k n false r s a b = b refl

make-Exact :
    (room : ℕ → Bool) (off sect len k : ℕ) (q : List SectorSet)
    → off ≤ sect
    → sect < 2 ^ 64
    → len < 2 ^ 32
    → Exact k (sets_at k q + at sect len (k + off)) (inc_make_sset room off sect len q)
unfolding inc_make_sset
make-Exact room off sect len k q a b c =
    if-Exact k _ (room (length q)) _ _
      (λ _ _.
        let e : sub64 sect off ≡ sect - off = omega arith in
        let f : len % 2 ^ 32 ≡ len = omega arith in
        let moved : at (sub64 sect off) (len % 2 ^ 32) k ≡ at sect len (k + off) =
          rw (e, f) (ground arith) in
        sets_at-append k q _ ∙ omega (arith, moved))
      (λ _ z. absurd (omega arith))

-- the sectors since `start` that are not queued yet
abbrev waiting : Bool → ℕ → ℕ → ℕ → ℕ
waiting init start end k = if init then at start (end - start) k else 0

abbrev Since : ℕ → Bool → ℕ → ℕ → Type 0
Since off init start end = init ≡ true → (off ≤ start) × (start ≤ end) × (end - start < 2 ^ 32)

flush-Exact :
    (room : ℕ → Bool) (off : ℕ) (init : Bool) (start end k : ℕ) (q : List SectorSet)
    → Since off init start end
    → end < 2 ^ 64
    → Exact k (sets_at k q + waiting init start end (k + off)) (flush room off init start end q)
unfolding flush
flush-Exact room off false start end k q s h = λ _. omega arith
flush-Exact room off true start end k q s h =
    let (a, b, c) = s refl in
    let e : sub64 end start ≡ end - start = omega arith in
    if-Exact k _ (ltb 0 (sub64 end start)) _ _
      (λ _. rw (e) (make-Exact room off start (end - start) k q a (omega arith) c))
      (λ z _. ground arith)

unless-Exact :
    (k n m : ℕ) (r : Marked) (f : List SectorSet → Marked)
    → Exact k n r
    → (sets_at k r.ssets ≡ n → Exact k m (f r.ssets))
    → Exact k m (unless_failed r f)
unless-Exact k n m r f e g =
    if-Exact k m (r.ret == 0) _ _ (λ z. g (e (ground arith))) (λ z w. absurd (ground arith))

SegGoal : (ℕ → Bool) → ℕ → ℕ → ℕ → List Segment → Type 0
SegGoal room off cow_inode k vs =
    (init : Bool) (start end : ℕ) (q : List SectorSet)
    → Since off init start end
    → off ≤ end
    → end + sectors_of vs < 2 ^ 64
    → (init ≡ true → end - start + sectors_of vs < 2 ^ 32)
    → sectors_of vs < 2 ^ 32
    → Exact k
        (sets_at k q + (waiting init start end (k + off) + foreign_at cow_inode end vs (k + off)))
        (inc_segments room off cow_inode init start end vs q)

segments_nil : (room : ℕ → Bool) (off cow_inode k : ℕ) → SegGoal room off cow_inode k []
unfolding SegGoal inc_segments
segments_nil room off cow_inode k init start end q s o h c d z =
    flush-Exact room off init start end k q s (omega arith) z ∙ omega arith

-- the first segment to be queued starts the set, another one prolongs it
abbrev since : Bool → ℕ → ℕ → ℕ
since init start end = if init then start else end

prolonged :
    (off : ℕ) (init : Bool) (start end l k : ℕ)
    → Since off init start end
    → waiting true (since init start end) (end + l) k ≡ waiting init start end k + at end l k
prolonged off true start end l k s = let (a, b, c) = s refl in ground arith
prolonged off false start end l k s = ground arith

Since-prolonged :
    (off : ℕ) (init : Bool) (start end l n : ℕ)
    → Since off init start end
    → off ≤ end
    → (init ≡ true → end - start + (l + n) < 2 ^ 32)
    → l + n < 2 ^ 32
    → Since off true (since init start end) (end + l)
      × (end + l - since init start end + n < 2 ^ 32)
Since-prolonged off true start end l n s o c d =
    let (a, b, _) = s refl in let e = c refl in (λ _. (a, omega arith, omega arith), omega arith)
Since-prolonged off false start end l n s o c d = (λ _. (o, omega arith, omega arith), omega arith)

segments_cons :
    (room : ℕ → Bool) (off cow_inode k : ℕ) (v : Segment) (vs : List Segment)
    → SegGoal room off cow_inode k vs
    → SegGoal room off cow_inode k (v ∷ vs)
unfolding SegGoal inc_segments
segments_cons room off cow_inode k v vs ih init start end q s o h c d =
    let next : add64 end (v.len / 512) ≡ end + v.len / 512 = omega arith in
    elim (Bool-cases (v.inode == cow_inode)) [
      | inr b ↦
          let (s', c') = Since-prolonged off init start end (v.len / 512) (sectors_of vs) s o c d in
          rw (b, next, inc_segments)
            (λ z.
              ih true (since init start end) (end + v.len / 512) q s' (omega arith) (omega arith)
                (λ _. c') (omega arith) z
              ∙ omega (arith, prolonged off init start end (v.len / 512) (k + off) s))
      | inl b ↦
          rw (b, next, inc_segments)
            (unless-Exact k (sets_at k q + waiting init start end (k + off)) _
              (flush room off init start end q)
              (inc_segments room off cow_inode false start (end + v.len / 512) vs)
              (flush-Exact room off init start end k q s (omega arith))
              (λ e z.
                ih false start (end + v.len / 512) (flush room off init start end q).ssets
                  (λ f. absurd (cc)) (omega arith) (omega arith) (λ f. absurd (cc)) (omega arith) z
                ∙ omega (arith, e)))
    ]

segments-Exact :
    (room : ℕ → Bool) (off cow_inode k : ℕ) (vs : List Segment) → SegGoal room off cow_inode k vs
segments-Exact room off cow_inode k [] = segments_nil room off cow_inode k
segments-Exact room off cow_inode k (v ∷ vs) =
    segments_cons room off cow_inode k v vs (segments-Exact room off cow_inode k vs)

-- 1 if the write changes a sector that belongs to the snapshot
abbrev pub changed_at : ℕ → Bool → Bio → List Segment → ℕ → ℕ
changed_at cow_inode write_zeroes bio vs k =
    if write_zeroes then at bio.sector (bio.size / 512) k else foreign_at cow_inode bio.sector vs k

out-Exact :
    (dev : SnapDevice) (r : Marked) (k n : ℕ)
    → Exact k n r
    → dev.sd_fail_code ≡ 0
    → (inc_out dev r).0.sd_fail_code ≡ 0
    → sets_at k (inc_out dev r).1 ≡ n
unfolding inc_out set_fail_state
out-Exact dev r k n e f g = e (ground arith)

-- A write behind the start of the device, whose sectors do not wrap: unless it sets the fail code,
-- `inc_trace_bio` adds to the queued sector sets just the sectors of the device that the write changes,
-- each once: all of them for a bio that writes zeroes, else those of the segments whose page does not
-- belong to the cow file.
pub inc_trace_bio_lem :
    (room : ℕ → Bool) (cow_inode : ℕ) (write_zeroes : Bool) (bio : Bio) (vs : List Segment)
    (dev : SnapDevice) (q : List SectorSet)
    → dev.sd_sect_off ≤ bio.sector
    → bio.sector + sectors_of vs < 2 ^ 64
    → sectors_of vs < 2 ^ 32
    → bio.sector < 2 ^ 64
    → bio.size < 2 ^ 32
    → dev.sd_fail_code ≡ 0
    → (let (dev', q') = inc_trace_bio room cow_inode write_zeroes bio vs dev q in
        dev'.sd_fail_code ≡ 0
        → (k : ℕ)
        → sets_at k q'
          ≡ sets_at k q + changed_at cow_inode write_zeroes bio vs (k + dev.sd_sect_off))
unfolding inc_trace_bio SegGoal
inc_trace_bio_lem room cow_inode true bio vs dev q a b c d e f g k =
    out-Exact dev _ k _
      (make-Exact room dev.sd_sect_off bio.sector (bio.size / 512) k q a d (omega arith)) f g
inc_trace_bio_lem room cow_inode false bio vs dev q a b c d e f g k =
    out-Exact dev _ k _
      (λ z.
        segments-Exact room dev.sd_sect_off cow_inode k vs false 0 bio.sector q (λ h. absurd (cc)) a
          b (λ h. absurd (cc)) c z
        ∙ omega arith)
      f g
