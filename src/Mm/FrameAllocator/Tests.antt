-- ===== src/Mm/FrameAllocator/Tests.antt =====
-- An allocator of 25 frames of 8 bytes, and the theorems at it.
use kruspix.Base.{sym, subst, ◌∙◌, ◌+◌, ◌*◌, ◌≡◌, refl, false, arith, if◌then◌else◌, ◌==◌}
use kruspix.Base.Outcome.{ok, ok-injective}
use kruspix.Base.Bits.{trailing_ones}
use kruspix.Mm.FrameAllocator.{
  FrameAllocator, Bitmap, is_power_of_two, fill, aligned, init_bitmap, new, alloc_loop, alloc_frame,
  dealloc_frame,
}
use kruspix.Mm.FrameAllocator.Frames.{taken}
use kruspix.Mm.FrameAllocator.Alloc.{
  IsValid, Allocates, alloc_frame-Allocates, alloc_frame-IsValid, dealloc_frame-taken,
}
use kruspix.Mm.FrameAllocator.New.{IsNew, new_lem}

abbrev small : FrameAllocator
small = record { frame_size = 8; total_frames = 25; bitmap_frames = 1; start = 4096 }

abbrev blank : Bitmap
blank i = 0

abbrev bitmap : Bitmap
bitmap = init_bitmap 1 8 blank

new-small : new 4090 206 8 blank ≡ ok (small, bitmap)
unfolding new is_power_of_two aligned
new-small = refl

-- Frame 0 holds the bitmap, so the first frame handed out is frame 1.
first_frame : (alloc_frame small bitmap).0 ≡ 4104
unfolding alloc_frame alloc_loop init_bitmap fill trailing_ones
first_frame = refl

new_lem_example : (r : FrameAllocator × Bitmap) × (new 4090 206 8 blank ≡ ok r) × IsNew 4090 206 r
unfolding is_power_of_two
new_lem_example = new_lem 4090 206 8 blank (omega arith) refl refl (omega arith) (λ i. omega arith)

small-IsValid : IsValid small bitmap
small-IsValid =
    let (r, runs, is_new) = new_lem_example in
    (subst (IsNew 4090 206) (ok-injective (sym runs ∙ new-small)) is_new).0

alloc_frame-Allocates_example : Allocates small bitmap (alloc_frame small bitmap)
alloc_frame-Allocates_example = alloc_frame-Allocates small bitmap small-IsValid

alloc_frame-IsValid_example : IsValid small (alloc_frame small bitmap).1
alloc_frame-IsValid_example = alloc_frame-IsValid small bitmap small-IsValid

dealloc_frame-taken_example :
    taken (dealloc_frame small (4096 + 1 * 8) (alloc_frame small bitmap).1) 2
    ≡ (if 2 == 1 then false else taken (alloc_frame small bitmap).1 2)
dealloc_frame-taken_example =
    dealloc_frame-taken small (alloc_frame small bitmap).1 1 2 alloc_frame-IsValid_example
      (omega arith)
