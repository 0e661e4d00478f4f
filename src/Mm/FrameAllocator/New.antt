-- ===== src/Mm/FrameAllocator/New.antt =====
-- `BitMapFrameAllocator::new`: the allocator that it makes is valid, and takes only its own bitmap.
use kruspix.Base.{
  eq→==, ℕ, zero, suc, ◌+◌, ◌-◌, ◌*◌, ◌/◌, ◌%◌, ◌^◌, ◌<◌, ◌≤◌, ◌≡◌, refl, sym, ◌∙◌, ap, true, false,
  arith, if◌then◌else◌, ltb, ◌==◌, add64, lt→ltb, le→not_ltb, eq→==, ne→not_==,
}
use kruspix.Base.Outcome.{ok}
use kruspix.Base.Bits.{bit, bit-mask, bit-zero, pow_mono, pow_pos}
use native.Mathlib.Decide.{dec_lt, ℕ_discrete}
use native.Mathlib.Nat.{div-add-mod', mod-lt, mul_assoc, mul-mod_left}
use kruspix.Mm.FrameAllocator.{
  FrameAllocator, Bitmap, word_max, next_multiple_of, is_power_of_two, fill, aligned, init_bitmap,
  new,
}
use kruspix.Mm.FrameAllocator.Frames.{taken, fill_lem}
use kruspix.Mm.FrameAllocator.Alloc.{IsValid}
use kruspix.Mm.FrameAllocator.Search.{Words}

no_bits : (r : ℕ) → r ≡ 0 → 2 ^ r - 1 ≡ 0
no_bits r e = rw e

-- The words of a new bitmap.
init_word :
    (bf fs : ℕ) (bitmap : Bitmap) (i : ℕ)
    → bf / 64 < bf * fs / 8
    → init_bitmap bf fs bitmap i ≡ (
        if ltb i (bf / 64)
        then word_max
        else if (i == bf / 64)
        then 2 ^ (bf % 64) - 1
        else if ltb i (bf * fs / 8)
        then 0
        else bitmap i)
unfolding init_bitmap
init_word bf fs bitmap i h =
    let zeroed = fill (bf * fs / 8) 0 bitmap in
    ground (
      arith,
      fill_lem (bf * fs / 8) 0 bitmap i,
      fill_lem (bf / 64) word_max zeroed i,
      no_bits (bf % 64),
    )

-- Rounding up to a multiple.
round_up : (x m : ℕ) → 0 < m → (x ≤ next_multiple_of x m) × (next_multiple_of x m < x + m)
round_up x m h =
    let e = div-add-mod' (x + m - 1) m in let l = mod-lt (x + m - 1) h in (omega arith, omega arith)

is_power_of_two-zero : (fuel : ℕ) → is_power_of_two fuel 0 ≡ false
unfolding is_power_of_two
is_power_of_two-zero zero = refl
is_power_of_two-zero (suc fuel) = is_power_of_two-zero fuel

-- A new bitmap marks the first `bf` frames, and no other that it has a bit for.
init_taken :
    (bf fs : ℕ) (bitmap : Bitmap) (n : ℕ)
    → bf / 64 < bf * fs / 8
    → n / 64 < bf * fs / 8
    → taken (init_bitmap bf fs bitmap) n ≡ ltb n bf
unfolding taken
init_taken bf fs bitmap n h hn =
    rw (init_word bf fs bitmap (n / 64) h)
      (cases (dec_lt (n / 64) (bf / 64)) (ℕ_discrete (n / 64) (bf / 64)))
  where
    cases :
        Dec (n / 64 < bf / 64)
        → Dec (n / 64 ≡ bf / 64)
        → bit
            (if ltb (n / 64) (bf / 64)
              then word_max
              else if n / 64 == bf / 64
              then 2 ^ (bf % 64) - 1
              else if ltb (n / 64) (bf * fs / 8)
              then 0
              else bitmap (n / 64))
            (n % 64)
          ≡ ltb n bf
    cases (yes lt) _ = rw (lt→ltb _ _ lt) (bit-mask 64 (n % 64) ∙ ground arith)
    cases (no ge) (yes e) =
        rw (le→not_ltb (n / 64) (bf / 64) (omega arith), eq→== _ _ e)
          (bit-mask (bf % 64) (n % 64) ∙ ground arith)
    cases (no ge) (no ne) =
        rw (le→not_ltb (n / 64) (bf / 64) (omega arith), ne→not_== _ _ ne, lt→ltb _ _ hn)
          (bit-zero (n % 64) ∙ ground arith)

whole_words : (b fs : ℕ) → fs % 8 ≡ 0 → b * fs % 8 ≡ 0
whole_words b fs e =
    let f : fs ≡ fs / 8 * 8 = omega arith in
    let g : b * fs ≡ b * (fs / 8) * 8 = ap (λ x. b * x) f ∙ sym (mul_assoc b (fs / 8) 8) in
    ap (λ x. x % 8) g ∙ mul-mod_left (b * (fs / 8)) 8

-- The bitmap has room for every frame, and is not empty.
bitmap_room :
    (total fs : ℕ)
    → 0 < fs
    → fs % 8 ≡ 0
    → 0 < total
    → let bf = ((total + 7) / 8 + fs - 1) / fs in
      (total ≤ bf * fs / 8 * 64) × (bf / 64 < bf * fs / 8)
bitmap_room total fs pos eight some_frames =
    let bf = ((total + 7) / 8 + fs - 1) / fs in
    let up = round_up ((total + 7) / 8) fs pos in
    let words : bf * fs % 8 ≡ 0 = whole_words bf fs eight in
    let much : bf * 8 ≤ bf * fs = grind arith in (omega arith, omega arith)

power_pos : (x : ℕ) → is_power_of_two 64 x ≡ true → 0 < x
power_pos zero h = let e = is_power_of_two-zero 64 in cc
power_pos (suc x) h = omega arith

-- The region that is managed lies in the one that is given.
aligned_lem :
    (start size fs : ℕ)
    → 0 < fs
    → 10 * fs < size
    → start + size + fs < 2 ^ 64
    → let (from, bytes) = aligned start size fs in
      (start ≤ from) × (from + bytes ≤ start + size) × (8 * fs < bytes)
unfolding aligned
aligned_lem start size fs pos big room =
    let wrap : add64 start size ≡ start + size = omega arith in
    let up = round_up start fs pos in
    let up' = round_up (start + size) fs pos in rw wrap (ground arith)

abbrev made : ℕ → ℕ → ℕ → FrameAllocator
made start size fs =
    let (from, bytes) = aligned start size fs in
    record {
      frame_size = fs;
      total_frames = bytes / fs;
      bitmap_frames = ((bytes / fs + 7) / 8 + fs - 1) / fs;
      start = from;
    }

abbrev pub IsNew : ℕ → ℕ → FrameAllocator × Bitmap → Type 0
IsNew start size (f, bitmap) =
    IsValid f bitmap
    × (start ≤ f.start)
    × (f.start + f.total_frames * f.frame_size ≤ start + size)
    × (0 < f.total_frames)
    × ((n : ℕ) → n < f.total_frames → taken bitmap n ≡ ltb n f.bitmap_frames)

init-Words :
    (bf fs : ℕ) (bitmap : Bitmap)
    → bf / 64 < bf * fs / 8
    → Words bitmap
    → Words (init_bitmap bf fs bitmap)
init-Words bf fs bitmap h words i =
    rw (init_word bf fs bitmap i h) (ground (arith, words i, pow_le (bf % 64)))
  where
    pow_le : (r : ℕ) → r < 64 → 2 ^ r - 1 < 2 ^ 64
    pow_le r h = omega (arith, pow_mono r 64 (omega arith), pow_pos r)

quotient_pos : (x m q : ℕ) → (x < q * m + m) × (m < x) → 0 < q
quotient_pos x m zero h = absurd (omega arith)
quotient_pos x m (suc q) h = omega arith

made-IsNew :
    (start size fs : ℕ) (bitmap : Bitmap)
    → 0 < fs
    → fs % 8 ≡ 0
    → 10 * fs < size
    → start + size + fs < 2 ^ 64
    → Words bitmap
    → IsNew start size
        (made start size fs, init_bitmap (made start size fs).bitmap_frames fs bitmap)
made-IsNew start size fs bitmap pos eight big room words =
    let region = aligned_lem start size fs pos big room in
    let from = (aligned start size fs).0 in
    let bytes = (aligned start size fs).1 in
    let total = bytes / fs in
    let bf = ((total + 7) / 8 + fs - 1) / fs in
    let split = div-add-mod' bytes fs in
    let low = mod-lt bytes pos in
    let some_frames : 0 < total = quotient_pos bytes fs total (omega (arith, split, low, region)) in
    let space = bitmap_room total fs pos eight some_frames in
    let fits : from + total * fs ≤ start + size = omega (arith, region) in
    (
      record {
        words = init-Words bf fs bitmap space.1 words;
        size = pos;
        room = space.0;
        in_space = omega arith;
        reserved =
            λ n h. init_taken bf fs bitmap n space.1 (omega (arith, space.1)) ∙ lt→ltb n bf h;
      },
      region.0,
      fits,
      some_frames,
      λ n h. init_taken bf fs bitmap n space.1 (omega (arith, space.0)),
    )

-- A region of more than ten frames, of a frame size that is a power of two and a multiple of 8 bytes,
-- makes an allocator, if the sums stay below the top of the address space. The allocator is valid, it
-- manages only memory of the region, and of its frames exactly those that hold the bitmap are taken.
pub new_lem :
    (start size fs : ℕ) (bitmap : Bitmap)
    → start + size + fs < 2 ^ 64
    → is_power_of_two 64 fs ≡ true
    → fs % 8 ≡ 0
    → 10 * fs < size
    → Words bitmap
    → (r : FrameAllocator × Bitmap) × (new start size fs bitmap ≡ ok r) × IsNew start size r
unfolding new
new_lem start size fs bitmap room power eight big words =
    let small : 10 * fs % 2 ^ 64 ≡ 10 * fs = omega arith in
    (
      (made start size fs, init_bitmap (made start size fs).bitmap_frames fs bitmap),
      rw (power, eq→== (fs % 8) 0 eight, small, lt→ltb (10 * fs) size big) refl,
      made-IsNew start size fs bitmap (power_pos fs power) eight big room words,
    )
