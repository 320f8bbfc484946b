-- ===== src/Control/Sound.antt =====
-- When a device has what its state needs, and what may change in the array.
use moocbt.Common.{
  ℕ, ◌≡◌, ◌≢◌, ◌⊎◌, ◌<◌, inl, inr, sym, subst, ◌∙◌, true, false, not, ◌&&◌, Option, none, some,
  get_elem?, set, length, length-set, get_elem?-set_self, get_elem?-set_ne, lt_of_get_elem?, ◌==◌,
  arith, Bool-cases, ==→eq,
}
use moocbt.Control.{Dev, Devices}

-- A device is active, dormant (its file system is unmounted) or unverified. Unless it is unverified it holds
-- what its mode needs; it has a thread just while it is active, if it has not failed. Its memory is not freed.
pub record IsSound (i : ℕ) (d : Dev) : Type 0 where
  pub number : d.minor ≡ i
  pub live : d.freed ≡ false
  pub apart : d.active ≡ true → d.unverified ≡ false
  pub hooked : d.hooked ≡ not d.unverified
  pub base_dev : d.base_dev ≡ not d.unverified
  pub cow : d.cow ≡ not d.unverified
  pub snap : d.snap ≡ (d.snapshot && not d.unverified)
  pub cow_thread : d.fail_code ≡ 0 → d.cow_thread ≡ d.active

abbrev pub AllSound : Devices → Type 0
AllSound ds = (i : ℕ) (d : Dev) → get_elem? ds i ≡ some (some d) → IsSound i d

-- an entry after a write is the new one, or one from before
after_set :
    (ds : Devices) (m i : ℕ) (v : Option Dev) {o : Option Dev}
    → get_elem? (set ds m v) i ≡ some o
    → ((m ≡ i) × (v ≡ o)) ⊎ (get_elem? ds i ≡ some o)
after_set ds m i v {o} e = elim (Bool-cases (m == i)) [
  | inl h ↦
      let same : m ≡ i = ==→eq m i h in
      let there : get_elem? (set ds m v) m ≡ some o =
        rw (same) (subst (λ k. get_elem? (set ds k v) i ≡ some o) same e) in
      let below : m < length ds =
        omega (arith, lt_of_get_elem? (set ds m v) m there, length-set ds m v) in
      let mine : get_elem? (set ds m v) m ≡ some v = get_elem?-set_self ds m v below in
      inl (same, cc)
  | inr h ↦ let ne : m ≢ i = λ z. ground arith in inr (sym (get_elem?-set_ne ds m i v ne) ∙ e)
]

pub AllSound-set :
    (ds : Devices) (m : ℕ) (d : Dev) → AllSound ds → IsSound m d → AllSound (set ds m (some d))
AllSound-set ds m d all s i x e = elim (after_set ds m i (some d) e) [
  | inr h ↦ all i x h
  | inl (same, v) ↦ let it : d ≡ x = cc in subst (λ k. IsSound k x) same (subst (IsSound m) it s)
]

pub AllSound-clear : (ds : Devices) (m : ℕ) → AllSound ds → AllSound (set ds m none)
AllSound-clear ds m all i x e = elim (after_set ds m i none e) [
  | inr h ↦ all i x h
  | inl (same, v) ↦ absurd (cc)
]

-- what is not a resource or a mode may change
pub changed :
    (m refs fail_code cache_size : ℕ) (d : Dev)
    → (fail_code ≡ 0 → d.fail_code ≡ 0)
    → IsSound m d
    → IsSound m (record d { refs = refs; fail_code = fail_code; cache_size = cache_size })
changed m refs fail_code cache_size d f s = record {
  number = s.number;
  live = s.live;
  apart = s.apart;
  hooked = s.hooked;
  base_dev = s.base_dev;
  cow = s.cow;
  snap = s.snap;
  cow_thread = λ z. s.cow_thread (f z);
}
