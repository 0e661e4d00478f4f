-- ===== src/Drivers/Display/FbConsole/Tests.antt =====
-- A console of 80 columns and 30 rows, whose DMA engine does every second transfer.
use kruspix.Base.{
  ℕ, suc, ◌%◌, ◌≡◌, refl, Bool, true, false, List, [], ◌∷◌, ◌==◌, if◌then◌else◌, arith,
}
use kruspix.Drivers.Display.FbConsole.{
  normal, Dma2DTransfer, DmaResult, done, busy, FbConsole, reset_fb_stats, new, write,
}
use kruspix.Drivers.Display.FbConsole.Bounds.{IsValid, new-write-IsValid}
use kruspix.Drivers.Display.FbConsole.Escapes.{
  Piece, plain, control, command, pair, all_bytes, bytes_of, shown, Parameters, Content, IsPiece,
  ArePieces, write-shown,
}

abbrev has_engine : ℕ → Bool
has_engine n = true

abbrev every_second : Dma2DTransfer → ℕ → DmaResult × ℕ
every_second t n = (if n % 2 == 0 then done else busy, suc n)

abbrev console : FbConsole ℕ
console = new 640 480 2560 1073741824 reset_fb_stats 0

-- a word in colour, the title of a window, and a new line
abbrev line : List Piece
line =
    control (51 ∷ 49 ∷ []) 109
    ∷ plain 79
    ∷ plain 75
    ∷ control [] 109
    ∷ command (48 ∷ 59 ∷ 97 ∷ []) true
    ∷ command [] false
    ∷ pair 55
    ∷ plain 10
    ∷ []

line-bytes :
    all_bytes line
    ≡ 27 ∷ 91 ∷ 51 ∷ 49 ∷ 109 ∷ 79 ∷ 75 ∷ 27 ∷ 91 ∷ 109 ∷ 27 ∷ 93 ∷ 48 ∷ 59 ∷ 97 ∷ 7 ∷ 27 ∷ 93 ∷ 27
      ∷ 92 ∷ 27 ∷ 55 ∷ 10 ∷ []
unfolding all_bytes bytes_of
line-bytes = refl

line-ArePieces : ArePieces line
unfolding ArePieces IsPiece Parameters Content
line-ArePieces = (
  ((refl, (refl, tt)), refl),
  (
    refl,
    (
      refl,
      (
        (tt, refl),
        (
          ((refl, refl), ((refl, refl), ((refl, refl), tt))),
          (tt, ((refl, refl, refl), (refl, tt))),
        ),
      ),
    ),
  ),
)

is_normal : console.state.ansi_state ≡ normal
unfolding new
is_normal = refl

write-shown_example :
    write has_engine every_second (all_bytes line) console
    ≡ write has_engine every_second (shown line) console
write-shown_example = write-shown has_engine every_second line console line-ArePieces is_normal

new-write-IsValid_example : IsValid (write has_engine every_second (72 ∷ 105 ∷ 10 ∷ 8 ∷ []) console)
new-write-IsValid_example =
    new-write-IsValid has_engine every_second 640 480 2560 1073741824 reset_fb_stats 0
      (72 ∷ 105 ∷ 10 ∷ 8 ∷ []) (omega arith) (omega arith) (omega arith) (omega arith) (omega arith)
      (omega arith)
