-- ===== src/Drivers/Display/FbConsole/Escapes.antt =====
-- Escape sequences do not show.
use kruspix.Base.{
  ℕ, ◌≡◌, refl, ap, sym, ◌∙◌, Bool, true, false, List, [], ◌∷◌, ◌++◌, if◌then◌else◌, leb, ◌==◌,
  ◌&&◌, ◌+◌, ◌*◌, ◌%◌, ◌^◌,
}
use kruspix.Drivers.Display.FbConsole.{
  AnsiState, normal, escape, csi, osc, Dma2DTransfer, DmaResult, done, unavailable, busy,
  invalid_transfer, timeout, fault, FbConsole, draw_glyph, set_ansi, transfer, match_result,
  attempt, try_dma, finish, scroll, newline, printable, backspace, in_normal, sequence, write_byte,
  write,
}
use kruspix.Drivers.Display.FbConsole.Bounds.{branches}

-- What a terminal sends: a byte of its own, `ESC [` with parameters and a final byte, `ESC ]` with a command
-- up to `BEL` or `ESC \`, or `ESC` and one byte.
pub data Piece : Type 0 where
  plain : ℕ → Piece
  control : List ℕ → ℕ → Piece
  command : List ℕ → Bool → Piece
  pair : ℕ → Piece

abbrev is_final : ℕ → Bool
is_final byte = leb 64 byte && leb byte 126

unfoldable pub Parameters : List ℕ → Type 0
Parameters [] = Unit {0}
Parameters (byte ∷ bytes) = (is_final byte ≡ false) × Parameters bytes

unfoldable pub Content : List ℕ → Type 0
Content [] = Unit {0}
Content (byte ∷ bytes) = (((byte == 7) ≡ false) × ((byte == 27) ≡ false)) × Content bytes

unfoldable pub IsPiece : Piece → Type 0
IsPiece (plain byte) = (byte == 27) ≡ false
IsPiece (control parameters final) = Parameters parameters × (is_final final ≡ true)
IsPiece (command content bell) = Content content
IsPiece (pair byte) = ((byte == 91) ≡ false) × ((byte == 93) ≡ false) × ((byte == 27) ≡ false)

unfoldable pub ArePieces : List Piece → Type 0
ArePieces [] = Unit {0}
ArePieces (p ∷ pieces) = IsPiece p × ArePieces pieces

unfoldable pub bytes_of : Piece → List ℕ
bytes_of (plain byte) = byte ∷ []
bytes_of (control parameters final) = 27 ∷ 91 ∷ (parameters ++ final ∷ [])
bytes_of (command content bell) = 27 ∷ 93 ∷ (content ++ (if bell then 7 ∷ [] else 27 ∷ 92 ∷ []))
bytes_of (pair byte) = 27 ∷ byte ∷ []

-- all bytes, and those that are no part of a sequence
unfoldable pub all_bytes : List Piece → List ℕ
all_bytes [] = []
all_bytes (p ∷ pieces) = bytes_of p ++ all_bytes pieces

unfoldable pub shown : List Piece → List ℕ
shown [] = []
shown (plain byte ∷ pieces) = byte ∷ shown pieces
shown (control parameters final ∷ pieces) = shown pieces
shown (command content bell ∷ pieces) = shown pieces
shown (pair byte ∷ pieces) = shown pieces

module _ {W : Type 0} (get_dma_engine : W → Bool)
    (copy_2d : Dma2DTransfer → W → DmaResult × W) where
  abbrev Normal : FbConsole W → Type 0
  Normal c = c.state.ansi_state ≡ normal

  match_result-Normal :
      (r : DmaResult) (t : Dma2DTransfer) (c : FbConsole W)
      → Normal c
      → Normal (match_result get_dma_engine copy_2d r t c).1
  unfolding match_result
  match_result-Normal done t c n = n
  match_result-Normal busy t c n = n
  match_result-Normal unavailable t c n = n
  match_result-Normal invalid_transfer t c n = n
  match_result-Normal timeout t c n = n
  match_result-Normal fault t c n = n

  attempt-Normal : (c : FbConsole W) → Normal c → Normal (attempt get_dma_engine copy_2d c).1
  unfolding attempt
  attempt-Normal c n =
      match_result-Normal (copy_2d (transfer get_dma_engine copy_2d c) c.world).0
        (transfer get_dma_engine copy_2d c)
        (record c {
          stats = record c.stats { dma_attempts = (c.stats.dma_attempts + 1) % 2 ^ 32 };
          world = (copy_2d (transfer get_dma_engine copy_2d c) c.world).1;
        })
        n

  try_dma-Normal : (c : FbConsole W) → Normal c → Normal (try_dma get_dma_engine copy_2d c).1
  unfolding try_dma
  try_dma-Normal c n =
      branches (Bool × FbConsole W) (λ r. Normal r.1) c.state.dma_failed (λ e. n)
        (λ e.
          branches (Bool × FbConsole W) (λ r. Normal r.1) (get_dma_engine c.world)
            (λ k. attempt-Normal c n) (λ k. n))

  scroll-Normal : (c : FbConsole W) → Normal c → Normal (scroll get_dma_engine copy_2d c)
  unfolding scroll finish
  scroll-Normal c n =
      try_dma-Normal
        (record c { stats = record c.stats { scrolls = (c.stats.scrolls + 1) % 2 ^ 32 } }) n

  newline-Normal : (c : FbConsole W) → Normal c → Normal (newline get_dma_engine copy_2d c)
  unfolding newline
  newline-Normal c n =
      let row = (c.state.row + 1) % 2 ^ 32 in
      branches (FbConsole W) Normal (leb c.state.rows row)
        (λ e. scroll-Normal (record c { state = record c.state { col = 0; row = row } }) n) (λ e. n)

  printable-Normal :
      (byte : ℕ) (c : FbConsole W) → Normal c → Normal (printable get_dma_engine copy_2d byte c)
  unfolding printable
  printable-Normal byte c n =
      let s = c.state in
      let glyph = draw_glyph (s.col * 8 % 2 ^ 32) (s.row * 16 % 2 ^ 32) byte s.fg s.bg in
      branches (FbConsole W) Normal (leb s.cols ((s.col + 1) % 2 ^ 32))
        (λ e.
          newline-Normal
            (record c { state = record s { col = (s.col + 1) % 2 ^ 32 }; drawn = glyph ∷ c.drawn })
            n)
        (λ e. n)

  in_normal-Normal :
      (byte : ℕ) (c : FbConsole W)
      → (byte == 27) ≡ false
      → Normal c
      → Normal (in_normal get_dma_engine copy_2d byte c)
  unfolding in_normal backspace
  in_normal-Normal byte c ne n =
      branches (FbConsole W) Normal (byte == 27) (λ e. cc)
        (λ e.
          branches (FbConsole W) Normal (leb 32 byte && leb byte 126)
            (λ k. printable-Normal byte c n)
            (λ k.
              branches (FbConsole W) Normal (byte == 10) (λ z. newline-Normal c n)
                (λ z.
                  branches (FbConsole W) Normal (byte == 13) (λ y. n)
                    (λ y. branches (FbConsole W) Normal (byte == 8) (λ x. n) (λ x. n)))))

  -- a byte in a sequence
  write_in :
      (a next : AnsiState) (byte : ℕ) (bytes : List ℕ) (c : FbConsole W)
      → ((d : FbConsole W)
          → write_byte get_dma_engine copy_2d a byte d
            ≡ set_ansi get_dma_engine copy_2d (sequence get_dma_engine copy_2d a byte) d)
      → sequence get_dma_engine copy_2d a byte ≡ next
      → write get_dma_engine copy_2d (byte ∷ bytes) (set_ansi get_dma_engine copy_2d a c)
        ≡ write get_dma_engine copy_2d bytes (set_ansi get_dma_engine copy_2d next c)
  unfolding write
  write_in a next byte bytes c in_sequence e = ap (write get_dma_engine copy_2d bytes) (
      in_sequence (set_ansi get_dma_engine copy_2d a c)
      ∙ ap (λ b. set_ansi get_dma_engine copy_2d b c) e)

  in_escape :
      (byte : ℕ) (d : FbConsole W)
      → write_byte get_dma_engine copy_2d escape byte d
        ≡ set_ansi get_dma_engine copy_2d (sequence get_dma_engine copy_2d escape byte) d
  unfolding write_byte
  in_escape byte d = refl

  in_csi :
      (byte : ℕ) (d : FbConsole W)
      → write_byte get_dma_engine copy_2d csi byte d
        ≡ set_ansi get_dma_engine copy_2d (sequence get_dma_engine copy_2d csi byte) d
  unfolding write_byte
  in_csi byte d = refl

  in_osc :
      (byte : ℕ) (d : FbConsole W)
      → write_byte get_dma_engine copy_2d osc byte d
        ≡ set_ansi get_dma_engine copy_2d (sequence get_dma_engine copy_2d osc byte) d
  unfolding write_byte
  in_osc byte d = refl

  through_csi :
      (bytes : List ℕ) (final : ℕ) (ys : List ℕ) (c : FbConsole W)
      → Parameters bytes
      → is_final final ≡ true
      → write get_dma_engine copy_2d
          ((bytes ++ final ∷ []) ++ ys)
          (set_ansi get_dma_engine copy_2d csi c)
        ≡ write get_dma_engine copy_2d ys (set_ansi get_dma_engine copy_2d normal c)
  unfolding sequence Parameters
  through_csi [] final ys c h f = write_in csi normal final ys c (in_csi final) (rw f refl)
  through_csi (byte ∷ bytes) final ys c (b, h) f =
      write_in csi csi byte ((bytes ++ final ∷ []) ++ ys) c (in_csi byte) (rw b refl)
      ∙ through_csi bytes final ys c h f

  through_osc :
      (bytes : List ℕ) (bell : Bool) (ys : List ℕ) (c : FbConsole W)
      → Content bytes
      → write get_dma_engine copy_2d
          ((bytes ++ (if bell then 7 ∷ [] else 27 ∷ 92 ∷ [])) ++ ys)
          (set_ansi get_dma_engine copy_2d osc c)
        ≡ write get_dma_engine copy_2d ys (set_ansi get_dma_engine copy_2d normal c)
  unfolding sequence Content
  through_osc [] true ys c h = write_in osc normal 7 ys c (in_osc 7) refl
  through_osc [] false ys c h =
      write_in osc escape 27 (92 ∷ ys) c (in_osc 27) refl
      ∙ write_in escape normal 92 ys c (in_escape 92) refl
  through_osc (byte ∷ bytes) bell ys c ((b, e), h) =
      write_in osc osc byte ((bytes ++ (if bell then 7 ∷ [] else 27 ∷ 92 ∷ [])) ++ ys) c
        (in_osc byte) (rw (b, e) refl)
      ∙ through_osc bytes bell ys c h

  write_plain :
      (byte : ℕ) (bytes : List ℕ) (c : FbConsole W)
      → Normal c
      → write get_dma_engine copy_2d (byte ∷ bytes) c
        ≡ write get_dma_engine copy_2d bytes (in_normal get_dma_engine copy_2d byte c)
  unfolding write write_byte
  write_plain byte bytes c n =
      ap (λ a. write get_dma_engine copy_2d bytes (write_byte get_dma_engine copy_2d a byte c)) n

  -- the byte that begins a sequence
  write_escape :
      (bytes : List ℕ) (c : FbConsole W)
      → Normal c
      → write get_dma_engine copy_2d (27 ∷ bytes) c
        ≡ write get_dma_engine copy_2d bytes (set_ansi get_dma_engine copy_2d escape c)
  unfolding in_normal
  write_escape bytes c n = write_plain 27 bytes c n

  restored : (c : FbConsole W) → Normal c → set_ansi get_dma_engine copy_2d normal c ≡ c
  restored c n = ap (λ a. set_ansi get_dma_engine copy_2d a c) (sym n)

  -- A console that is in its normal state shows, of a text of plain bytes and whole escape sequences, the plain bytes: the sequences leave nothing on the screen, in the cursor or in the state.
  pub write-shown :
      (pieces : List Piece) (c : FbConsole W)
      → ArePieces pieces
      → c.state.ansi_state ≡ normal
      → write get_dma_engine copy_2d (all_bytes pieces) c
        ≡ write get_dma_engine copy_2d (shown pieces) c
  unfolding ArePieces IsPiece all_bytes bytes_of shown sequence
  write-shown [] c h n = refl
  write-shown (plain byte ∷ pieces) c (p, h) n =
      write_plain byte (all_bytes pieces) c n
      ∙ write-shown pieces (in_normal get_dma_engine copy_2d byte c) h (in_normal-Normal byte c p n)
      ∙ sym (write_plain byte (shown pieces) c n)
  write-shown (control parameters final ∷ pieces) c ((p, f), h) n =
      write_escape (91 ∷ ((parameters ++ final ∷ []) ++ all_bytes pieces)) c n
      ∙ write_in escape csi 91 ((parameters ++ final ∷ []) ++ all_bytes pieces) c (in_escape 91)
          refl
      ∙ through_csi parameters final (all_bytes pieces) c p f
      ∙ ap (write get_dma_engine copy_2d (all_bytes pieces)) (restored c n)
      ∙ write-shown pieces c h n
  write-shown (command content bell ∷ pieces) c (p, h) n =
      let last : List ℕ = if bell then 7 ∷ [] else 27 ∷ 92 ∷ [] in
      write_escape (93 ∷ ((content ++ last) ++ all_bytes pieces)) c n
      ∙ write_in escape osc 93 ((content ++ last) ++ all_bytes pieces) c (in_escape 93) refl
      ∙ through_osc content bell (all_bytes pieces) c p
      ∙ ap (write get_dma_engine copy_2d (all_bytes pieces)) (restored c n)
      ∙ write-shown pieces c h n
  write-shown (pair byte ∷ pieces) c ((p, q, r), h) n =
      write_escape (byte ∷ all_bytes pieces) c n
      ∙ write_in escape normal byte (all_bytes pieces) c (in_escape byte) (rw (p, q, r) refl)
      ∙ ap (write get_dma_engine copy_2d (all_bytes pieces)) (restored c n)
      ∙ write-shown pieces c h n
