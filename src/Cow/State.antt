-- ===== src/Cow/State.antt =====
-- The state that src/cow_manager.h declares, and the monad in which its functions are written:
-- each returns a result and the new state, also when it fails.
use moocbt.Common.{
  ℕ, Bool, List, Option, none, some, Result, ok, err, oops, if◌then◌else◌, get_elem?, set,
}

-- `struct cow_section`; `none` is a NULL `mappings`.
pub record Section : Type 0 where
  pub has_data : Bool
  pub usage : ℕ
  pub mappings : Option (List ℕ)

-- The pointer `dfilp`; `err_ptr` is what a failed `moocbt_cow_file_wrap` leaves in it.
pub data FilePtr : Type 0 where
  null opened err_ptr : FilePtr

-- `struct cow_manager`. A NULL `sects` is the empty list. The device pointer `dev` is left out: it
-- is only handed to the file functions, which do not use it.
pub record Cow : Type 0 where
  pub dfilp : FilePtr
  pub flags : ℕ
  pub curr_pos : ℕ
  pub data_offset : ℕ
  pub file_size : ℕ
  pub seqid : ℕ
  pub version : ℕ
  pub nr_changed_blocks : ℕ
  pub uuid : List ℕ
  pub log_sect_pages : ℕ
  pub sect_size : ℕ
  pub allocated_sects : ℕ
  pub total_sects : ℕ
  pub allowed_sects : ℕ
  pub sects : List Section

-- The manager, beside the state of the kernel that holds its file.
pub record World (F : Type 0) : Type 0 where
  pub cm : Cow
  pub sys : F

-- `struct cow_manager` functions: the error paths keep the state that they reached.
abbrev pub M : Type 0 → Type 0 → Type 0
M F A = World F → Result A × World F

module _ {F : Type 0} where
  abbrev pub pure : {A : Type 0} → A → M F A
  pure a w = (ok a, w)

  abbrev pub fail : {A : Type 0} → ℕ → M F A
  fail e w = (err e, w)

  abbrev pub and_then : {A B : Type 0} → Result A × World F → (A → M F B) → Result B × World F
  and_then (ok a, w) f = f a w
  and_then (err e, w) f = (err e, w)
  and_then (oops, w) f = (oops, w)

  infixl 5 ◌>>=◌ ◌>>◌
  abbrev pub ◌>>=◌ : {A B : Type 0} → M F A → (A → M F B) → M F B
  ◌>>=◌ m f w = and_then (m w) f

  abbrev pub ◌>>◌ : {B : Type 0} → M F (Unit {0}) → M F B → M F B
  m >> k = m >>= λ _. k

  abbrev pub get_cm : M F Cow
  get_cm w = (ok w.cm, w)

  abbrev pub put_cm : Cow → M F (Unit {0})
  put_cm c w = (ok tt, record w { cm = c })

  abbrev pub fault : {A : Type 0} → M F A
  fault w = (oops, w)

  -- a call of the kernel that returns nothing
  abbrev pub run : (F → F) → M F (Unit {0})
  run f w = (ok tt, record w { sys = f w.sys })

  -- `if (c) m`
  abbrev pub when : Bool → M F (Unit {0}) → M F (Unit {0})
  when c m = if c then m else pure tt

  abbrev pub cleaned : {A : Type 0} → ℕ → Result (Unit {0}) × World F → Result A × World F
  cleaned e (oops, w) = (oops, w)
  cleaned e (ok _, w) = (err e, w)
  cleaned e (err _, w) = (err e, w)

  abbrev pub recover : {A : Type 0} → M F (Unit {0}) → Result A × World F → Result A × World F
  recover h (ok a, w) = (ok a, w)
  recover h (err e, w) = cleaned e (h w)
  recover h (oops, w) = (oops, w)

  -- `goto error`: the clean-up runs, and the error is returned.
  abbrev pub on_error : {A : Type 0} → M F (Unit {0}) → M F A → M F A
  on_error h m w = recover h (m w)

  -- `cm->sects[i]`
  abbrev pub sect_at : ℕ → M F Section
  sect_at i w = elim (get_elem? w.cm.sects i) [ some s ↦ (ok s, w) | none ↦ (oops, w) ]

  abbrev pub put_sect : ℕ → Section → M F (Unit {0})
  put_sect i s w = (ok tt, record w { cm = record (w.cm) { sects = set w.cm.sects i s } })
