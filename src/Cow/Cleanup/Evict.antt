-- ===== src/Cow/Cleanup/Evict.antt =====
-- `__cow_cleanup_mappings` keeps every mapping, and what it frees.
use moocbt.Common.{take_whole, ℕ, ◌≤◌, ◌≡◌, refl, true, some, length, take, All, leb, arith}
use moocbt.Kernel.{Kernel, IsKernel}
use moocbt.Cow.State.{World, and_then}
use moocbt.Cow.Cleanup.{threshold, cleanup_mappings}
use moocbt.Cow.Cleanup.Median.{threshold_total, threshold_zero, max_usage-le}
use moocbt.Cow.Sections.{sync_and_free_sections}
use moocbt.Cow.Sections.Sync.{sync_and_free_sections-Ends}
use moocbt.Cow.Inv.{Ends, Ends-mono, IsValid, Keeps}

module _ {F : Type 0} {K : Kernel F} (L : IsKernel K) where
  cleanup_eq :
      (w : World F) (t : ℕ)
      → IsValid L w
      → threshold w.cm.sects ≡ some t
      → cleanup_mappings K w ≡ sync_and_free_sections K t w
  unfolding cleanup_mappings
  cleanup_eq w t v e =
      let all : take w.cm.total_sects w.cm.sects ≡ w.cm.sects =
        take_whole w.cm.sects w.cm.total_sects v.count in
      let enough : leb w.cm.total_sects (length w.cm.sects) ≡ true = ground (arith, v.count) in
      rw (enough, all, and_then, e)

  -- Eviction, however its writes end, changes no mapping.
  pub cleanup_mappings-Ends :
      (w : World F) → IsValid L w → Ends (Keeps L w) (λ _ w'. Keeps L w w') (cleanup_mappings K w)
  cleanup_mappings-Ends w v =
      let (t, e) = threshold_total w.cm.sects in
      rw (cleanup_eq w t v e) (
        Ends-mono (Keeps L w) (Keeps L w)
          (λ _ w'. Keeps L w w' × (t ≡ 0 → w'.cm.allocated_sects ≡ 0)) (λ _ w'. Keeps L w w')
          (sync_and_free_sections K t w) (sync_and_free_sections-Ends L t w v) (λ w' k. k)
          (λ _ w' p. p.0))

  -- When no section was used more than once since the counts were reset, an eviction that succeeds
  -- empties the whole cache.
  pub cleanup_mappings_cold :
      (w : World F)
      → IsValid L w
      → All (λ s. s.usage ≤ 1) w.cm.sects
      → Ends (Keeps L w) (λ _ w'. w'.cm.allocated_sects ≡ 0) (cleanup_mappings K w)
  cleanup_mappings_cold w v used =
      rw
        (cleanup_eq w 0 v
          (threshold_zero w.cm.sects (max_usage-le 0 1 w.cm.sects (omega arith) used)))
        (Ends-mono (Keeps L w) (Keeps L w)
          (λ _ w'. Keeps L w w' × (◌≡◌ {A = ℕ} 0 0 → w'.cm.allocated_sects ≡ 0))
          (λ _ w'. w'.cm.allocated_sects ≡ 0) (sync_and_free_sections K 0 w)
          (sync_and_free_sections-Ends L 0 w v) (λ w' k. k) (λ _ w' p. p.1 refl))
