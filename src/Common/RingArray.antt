-- ===== src/Common/RingArray.antt =====
-- `RingArray<T, N>` of src/common/ring_array.rs: the last N items pushed, in a fixed buffer.
-- A method that takes `&mut self` returns the new array; `none` is a panic.
pub mod Contents
pub mod History
pub mod Drain
mod Tests
use kruspix.Base.{
  ℕ, zero, suc, ◌+◌, ◌-◌, ◌%◌, ◌<◌, min, ◌≡◌, Bool, true, false, not, ◌&&◌, ◌||◌, Option, none,
  some, List, [], ◌∷◌, ◌++◌, if◌then◌else◌, ltb, leb, ◌==◌, length, get_elem?, set, take, drop,
  replicate,
}

pub record RingArray {ℓ} (A : Type ℓ) : Type ℓ where
  pub buffer : List A
  pub index : ℕ
  pub full : Bool

pub record Iter {ℓ} (A : Type ℓ) : Type ℓ where
  pub buffer : List A
  pub pos : ℕ
  pub count : ℕ

module _ {ℓ} {A : Type ℓ} where
  -- `dst[at..at + part].copy_from_slice(&src[from..from + part])`
  pub copy_from_slice : List A → ℕ → List A → ℕ → ℕ → List A
  copy_from_slice dst at src from part =
      take at dst ++ (take part (drop from src) ++ drop (at + part) dst)

-- `N` is the length of the array type.
module _ {ℓ} {A : Type ℓ} (N : ℕ) where
  pub new : A → RingArray A
  new fill_value = record { buffer = replicate N fill_value; index = 0; full = false }

  -- A write at an index out of range would panic; `Contents.IsValid` rules that out.
  pub push : RingArray A → A → RingArray A
  push r item =
      let buffer = set r.buffer r.index item in
      let index = (r.index + 1) % N in
      record { buffer = buffer; index = index; full = if r.full then true else index == 0 }

  pub clear : RingArray A → RingArray A
  clear r = record r { index = 0; full = false }

  pub len : RingArray A → ℕ
  len r = if r.full then N else r.index

  pub is_empty : RingArray A → Bool
  is_empty r = not r.full && (r.index == 0)

  pub start_of : RingArray A → ℕ
  start_of r = if r.full then r.index else 0

  pub iter : RingArray A → Iter A
  unfolding len start_of
  iter r = record { buffer = r.buffer; pos = start_of r; count = len r }

  -- A read at an index out of range would panic; it is `none` here.
  pub next : Iter A → Option (A × Iter A)
  next it = if it.count == 0 then none else elim (get_elem? it.buffer it.pos) [
    | none ↦ none
    | some item ↦ some (item, record it { pos = (it.pos + 1) % N; count = it.count - 1 })
  ]

  -- `for x in ring.iter()`, with fuel for the rounds.
  pub collect : ℕ → Iter A → List A
  collect zero it = []
  collect (suc fuel) it = elim (next it) [ none ↦ [] | some (x, it') ↦ x ∷ collect fuel it' ]

  -- The items copied out, the new `dst` and the emptied array; `none` where the assertion fails.
  pub drain : RingArray A → List A → Option (ℕ × List A × RingArray A)
  unfolding len is_empty start_of clear
  drain r dst =
      if ltb (length dst) (len r)
      then none
      else if (length dst == 0) || is_empty r
      then some (0, dst, r)
      else (let n = min (len r) (length dst) in
          let start = start_of r in
          let part = min (N - start) n in
          let dst' = copy_from_slice dst 0 r.buffer start part in
          some (
            n,
            (if ltb part n then copy_from_slice dst' part r.buffer 0 (n - part) else dst'),
            clear r,
          ))
