-- ===== src/Common/RingArray/Tests.antt =====
-- A ring array of three items, and the theorems at it.
use kruspix.Base.{ℕ, ◌≡◌, refl, true, some, [], ◌∷◌, arith}
use kruspix.Common.RingArray.{RingArray, new, push, clear, len, drain, copy_from_slice}
use kruspix.Common.RingArray.Contents.{contents, IsValid}
use kruspix.Common.RingArray.History.{push_all, push_all-new}
use kruspix.Common.RingArray.Drain.{drain_lem}

-- 5 and 6, and then 7, 8: the array went round.
abbrev wrapped : RingArray ℕ
wrapped = record { buffer = 8 ∷ 6 ∷ 7 ∷ []; index = 1; full = true }

abbrev fresh : RingArray ℕ
fresh = new 3 0

wrapped-pushed : push_all 3 fresh (5 ∷ 6 ∷ 7 ∷ 8 ∷ []) ≡ wrapped
unfolding push_all new push
wrapped-pushed = refl

drained : drain 3 wrapped (1 ∷ 1 ∷ 1 ∷ 1 ∷ []) ≡ some (3, 6 ∷ 7 ∷ 8 ∷ 1 ∷ [], clear 3 wrapped)
unfolding drain copy_from_slice
drained = refl

wrapped-IsValid : IsValid 3 wrapped
wrapped-IsValid = record { size = refl; in_range = omega arith }

push_all-new_example :
    (contents (push_all 3 fresh (5 ∷ 6 ∷ 7 ∷ 8 ∷ [])) ≡ 6 ∷ 7 ∷ 8 ∷ [])
    × (len 3 (push_all 3 fresh (5 ∷ 6 ∷ 7 ∷ 8 ∷ [])) ≡ 3)
push_all-new_example = push_all-new 3 0 (5 ∷ 6 ∷ 7 ∷ 8 ∷ []) (omega arith)

drain_lem_example :
    (drain 3 wrapped (1 ∷ 1 ∷ 1 ∷ 1 ∷ []) ≡ some (3, 6 ∷ 7 ∷ 8 ∷ 1 ∷ [], clear 3 wrapped))
    × (contents (clear 3 wrapped) ≡ [])
unfolding len
drain_lem_example = drain_lem 3 wrapped (1 ∷ 1 ∷ 1 ∷ 1 ∷ []) wrapped-IsValid (omega arith)
