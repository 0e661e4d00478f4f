-- ===== src/Mm/HeapAllocator/Backed.antt =====
-- The pages of the heap lie in frames of their own, as long as the allocator has frames left.
use kruspix.Base.{
  ℕ, ◌+◌, ◌-◌, ◌*◌, ◌/◌, ◌%◌, ◌^◌, ◌<◌, ◌≤◌, ◌≡◌, ◌≢◌, refl, sym, ◌∙◌, Bool-cases, inl, inr, some,
  arith, subst, if◌then◌else◌, ◌==◌, ==→eq, not_==→ne,
}
use kruspix.Base.Outcome.{ok}
use kruspix.Arch.Mmu.{Mmu, map_page}
use kruspix.Arch.Mmu.Walk.{translate}
use kruspix.Arch.Mmu.Step.{FrameSource, IsMmu}
use kruspix.Arch.Mmu.MapPage.{Maps, map_page-Maps}
use kruspix.Mm.HeapAllocator.{heap_map_offset}

module _ {W : Type 0} {alloc_frame : W → ℕ × W} (source : FrameSource W alloc_frame) where
  -- `mm::alloc_frame`, with the page tables beside it
  abbrev pub take_frame : Mmu W → ℕ × Mmu W
  take_frame m = let (frame, w) = alloc_frame m.frames in (frame, record m { frames = w })

  -- The pages of the heap are at frames that are taken and differ.
  pub record AreBacked (size : ℕ) (m : Mmu W) : Type 0 where
    pub inv : IsMmu source m
    pub frame : ℕ → ℕ
    pub taken : (k : ℕ) → 4096 * k < size → source.Taken m.frames (frame k)
    pub on_frame : (k : ℕ) → 4096 * k < size → frame k % 4096 ≡ 0
    pub distinct : (j k : ℕ) → 4096 * j < size → 4096 * k < size → frame j ≡ frame k → j ≡ k
    pub at :
        (a : ℕ)
        → heap_map_offset ≤ a
        → a < heap_map_offset + size
        → translate m a ≡ some (frame ((a - heap_map_offset) / 4096) + a % 4096)

  module _ (n size : ℕ) (m m' : Mmu W) (whole : size ≡ 4096 * n) (fits : size < 2 ^ 44)
      (b : AreBacked size m) (some_left : 4 ≤ source.left m.frames)
      (run : map_page alloc_frame (heap_map_offset + size) (alloc_frame m.frames).0 (take_frame m).1
        ≡ ok m') where
    abbrev new_frame : ℕ
    new_frame = (alloc_frame m.frames).0

    abbrev new_frames : ℕ → ℕ
    new_frames k = if k == n then new_frame else b.frame k

    maps : Maps source (heap_map_offset + size) new_frame (take_frame m).1 m'
    maps =
        map_page-Maps source (heap_map_offset + size) new_frame (take_frame m).1 m'
          (omega (arith, fits)) (omega (arith, source.below m.frames (omega (arith, some_left))))
          (record {
            tree = b.inv.tree;
            taken = λ t ne. source.kept m.frames t (b.inv.taken t ne);
            low = b.inv.low;
          })
          (omega (arith, source.fewer m.frames, some_left)) run

    old_or_new :
        (P : ℕ → ℕ → Type 0)
        → P n new_frame
        → ((k : ℕ) → 4096 * k < size → P k (b.frame k))
        → (k : ℕ) → 4096 * k < size + 4096
        → P k (new_frames k)
    old_or_new P new_one old k lt = elim (Bool-cases (k == n)) [
      | inl e ↦ rw e (subst (λ i. P i new_frame) (sym (==→eq k n e)) new_one)
      | inr e ↦ rw e (old k (omega (arith, lt, whole, not_==→ne k n e)))
    ]

    not_new : (k : ℕ) → 4096 * k < size → b.frame k ≢ new_frame
    not_new k lt e =
        source.unused m.frames (omega (arith, some_left))
          (subst (source.Taken m.frames) e (b.taken k lt))

    new_distinct :
        (j k : ℕ)
        → 4096 * j < size + 4096
        → 4096 * k < size + 4096
        → new_frames j ≡ new_frames k
        → j ≡ k
    new_distinct j k = λ lj lk.
        old_or_new (λ i f. f ≡ new_frames k → i ≡ k)
          (old_or_new (λ i f. new_frame ≡ f → n ≡ i) (λ e. refl)
            (λ i lt e. absurd (not_new i lt (sym e))) k lk)
          (λ i lt.
            old_or_new (λ h f. b.frame i ≡ f → i ≡ h) (λ e. absurd (not_new i lt e))
              (λ h l e. b.distinct i h lt l e) k lk)
          j lj

    new_at :
        (a : ℕ)
        → heap_map_offset ≤ a
        → a < heap_map_offset + (size + 4096)
        → translate m' a ≡ some (new_frames ((a - heap_map_offset) / 4096) + a % 4096)
    new_at a le lt = elim (Bool-cases ((a - heap_map_offset) / 4096 == n)) [
      | inl e ↦
          let same : a / 4096 ≡ (heap_map_offset + size) / 4096 =
            omega (arith, ==→eq ((a - heap_map_offset) / 4096) n e, whole, le) in
          rw e (maps.mapped a same)
      | inr e ↦
          let ne = not_==→ne ((a - heap_map_offset) / 4096) n e in
          let other : a / 4096 ≢ (heap_map_offset + size) / 4096 =
            λ same. ne (omega (arith, same, whole, le)) in
          rw e (
            maps.others a (omega (arith, le), omega (arith, lt, fits)) other
            ∙ b.at a le (omega (arith, ne, lt, le, whole)))
    ]

    used_four : source.left m.frames ≤ source.left m'.frames + 4
    used_four = omega (arith, maps.fewer, source.fewer m.frames)

    backed_one_more : AreBacked (size + 4096) m'
    backed_one_more = record {
      inv = maps.next;
      frame = new_frames;
      taken =
          old_or_new (λ k f. source.Taken m'.frames f)
            (maps.kept new_frame (source.marked m.frames (omega (arith, some_left))))
            (λ k lt. maps.kept (b.frame k) (source.kept m.frames (b.frame k) (b.taken k lt)));
      on_frame =
          old_or_new (λ k f. f % 4096 ≡ 0) (source.on_frame m.frames (omega (arith, some_left)))
            b.on_frame;
      distinct = new_distinct;
      at = new_at;
    }

    pub grown_one_more :
        (source.left m.frames ≤ source.left m'.frames + 4) × AreBacked (size + 4096) m'
    grown_one_more = (used_four, backed_one_more)
