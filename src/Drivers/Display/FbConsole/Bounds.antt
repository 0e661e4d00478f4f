-- ===== src/Drivers/Display/FbConsole/Bounds.antt =====
-- The cursor stays on the screen, and so does all that is drawn.
use kruspix.Base.{
  ℕ, ◌+◌, ◌-◌, ◌*◌, ◌/◌, ◌%◌, ◌^◌, ◌<◌, ◌≤◌, ◌≡◌, refl, Bool, true, false, List, [], ◌∷◌,
  if◌then◌else◌, ltb, leb, ◌==◌, ◌&&◌, arith, not_leb→lt,
}
use native.Mathlib.Nat.{mul-le-mul_left}
use kruspix.Drivers.Display.FbConsole.{
  AnsiState, normal, escape, csi, osc, Dma2DTransfer, DmaResult, done, unavailable, busy,
  invalid_transfer, timeout, fault, FbStats, Draw, draw_glyph, fill_rect, copy_region, copied_2d,
  FbConsole, new, row_count, transfer, match_result, attempt, try_dma, finish, scroll, newline,
  printable, backspace, set_ansi, in_normal, sequence, write_byte, write,
}

-- What a call draws on, and what it reads, lies on a screen of that size.
abbrev pub Inside : (width height pitch bus : ℕ) → Draw → Type 0
Inside width height pitch bus (draw_glyph x y byte fg bg) = (x + 8 ≤ width) × (y + 16 ≤ height)
Inside width height pitch bus (fill_rect x y w h color) = (x + w ≤ width) × (y + h ≤ height)
Inside width height pitch bus (copy_region src_x src_y dst_x dst_y w h) =
    (src_x + w ≤ width) × (src_y + h ≤ height) × (dst_x + w ≤ width) × (dst_y + h ≤ height)
Inside width height pitch bus (copied_2d t) =
    (t.row_len_bytes ≡ 4 * width)
    × (t.row_len_bytes + t.src_stride ≡ pitch)
    × (t.row_len_bytes + t.dst_stride ≡ pitch)
    × (t.dst_bus_addr ≡ bus)
    × (t.src_bus_addr ≡ bus + 16 * pitch)
    × (t.row_count + 16 ≤ height)
    × (t.src_bus_addr + t.row_count * pitch ≤ bus + pitch * height)

unfoldable pub AllInside : (width height pitch bus : ℕ) → List Draw → Type 0
AllInside width height pitch bus [] = Unit {0}
AllInside width height pitch bus (d ∷ drawn) =
    Inside width height pitch bus d × AllInside width height pitch bus drawn

-- All but the row of the cursor.
pub record Shape (col cols rows width height pitch bus : ℕ) (drawn : List Draw) : Type 0 where
  pub cols_are : cols ≡ width / 8
  pub rows_are : rows ≡ height / 16
  pub col_lt : col < cols
  pub some_rows : 0 < rows
  pub width_le : 4 * width ≤ pitch
  pub pitch_lt : pitch < 2 ^ 32
  pub height_lt : height < 2 ^ 32
  pub on_bus : bus + pitch * height < 2 ^ 32
  pub inside : AllInside width height pitch bus drawn

abbrev pub HasShape : {W : Type 0} → FbConsole W → Type 0
HasShape c =
    let s = c.state in Shape s.col s.cols s.rows s.fb_width s.fb_height c.pitch c.bus_addr c.drawn

-- The cursor is on the screen, and what was drawn is.
pub record IsValid {W : Type 0} (c : FbConsole W) : Type 0 where
  pub shape : HasShape c
  pub row_lt : c.state.row < c.state.rows

-- another column, and more that is drawn
Shape-moved :
    (col col' cols rows width height pitch bus : ℕ) (drawn drawn' : List Draw)
    → Shape col cols rows width height pitch bus drawn
    → col' < cols
    → AllInside width height pitch bus drawn'
    → Shape col' cols rows width height pitch bus drawn'
Shape-moved col col' cols rows width height pitch bus drawn drawn' s lt h = record {
  cols_are = s.cols_are;
  rows_are = s.rows_are;
  col_lt = lt;
  some_rows = s.some_rows;
  width_le = s.width_le;
  pitch_lt = s.pitch_lt;
  height_lt = s.height_lt;
  on_bus = s.on_bus;
  inside = h;
}

rows_fit : (rows height pitch : ℕ) → rows + 16 ≤ height → 16 * pitch + rows * pitch ≤ pitch * height
rows_fit rows height pitch h =
    let more : pitch * (rows + 16) ≤ pitch * height = mul-le-mul_left pitch h in
    let e : pitch * (rows + 16) ≡ 16 * pitch + rows * pitch = grind arith in omega (arith, more, e)

-- What holds on both branches.
pub branches :
    (A : Type 0) (P : A → Type 0) (b : Bool) {x y : A}
    → (b ≡ true → P x)
    → (b ≡ false → P y)
    → P (if b then x else y)
branches A P true p q = p refl
branches A P false p q = q refl

module _ {W : Type 0} (get_dma_engine : W → Bool)
    (copy_2d : Dma2DTransfer → W → DmaResult × W) where
  draw-HasShape :
      (c : FbConsole W) (d : Draw)
      → HasShape c
      → Inside c.state.fb_width c.state.fb_height c.pitch c.bus_addr d
      → HasShape (record c { drawn = d ∷ c.drawn })
  unfolding AllInside
  draw-HasShape c d s h =
      let t = c.state in
      Shape-moved t.col t.col t.cols t.rows t.fb_width t.fb_height c.pitch c.bus_addr c.drawn
        (d ∷ c.drawn) s s.col_lt (h, s.inside)

  rows_left :
      (c : FbConsole W) → HasShape c → row_count get_dma_engine copy_2d c + 16 ≤ c.state.fb_height
  rows_left c s = omega (arith, s.rows_are, s.some_rows, s.height_lt)

  transfer-Inside :
      (c : FbConsole W)
      → HasShape c
      → Inside c.state.fb_width c.state.fb_height c.pitch c.bus_addr
          (copied_2d (transfer get_dma_engine copy_2d c))
  unfolding transfer
  transfer-Inside c s =
      let rows = rows_left c s in
      let fits = rows_fit (row_count get_dma_engine copy_2d c) c.state.fb_height c.pitch rows in
      let src : (c.bus_addr + 16 * c.pitch % 2 ^ 32) % 2 ^ 32 ≡ c.bus_addr + 16 * c.pitch =
        omega (arith, fits, s.on_bus, s.width_le, s.cols_are, s.col_lt) in
      (
        omega (arith, s.width_le, s.pitch_lt),
        omega (arith, s.width_le, s.pitch_lt),
        omega (arith, s.width_le, s.pitch_lt),
        refl,
        src,
        rows,
        omega (arith, src, fits),
      )

  match_result-HasShape :
      (r : DmaResult) (t : Dma2DTransfer) (c : FbConsole W)
      → HasShape c
      → Inside c.state.fb_width c.state.fb_height c.pitch c.bus_addr (copied_2d t)
      → HasShape (match_result get_dma_engine copy_2d r t c).1
  unfolding match_result
  match_result-HasShape done t c s h = draw-HasShape c (copied_2d t) s h
  match_result-HasShape busy t c s h = s
  match_result-HasShape unavailable t c s h = s
  match_result-HasShape invalid_transfer t c s h = s
  match_result-HasShape timeout t c s h = s
  match_result-HasShape fault t c s h = s

  attempt-HasShape : (c : FbConsole W) → HasShape c → HasShape (attempt get_dma_engine copy_2d c).1
  unfolding attempt
  attempt-HasShape c s =
      match_result-HasShape (copy_2d (transfer get_dma_engine copy_2d c) c.world).0
        (transfer get_dma_engine copy_2d c)
        (record c {
          stats = record c.stats { dma_attempts = (c.stats.dma_attempts + 1) % 2 ^ 32 };
          world = (copy_2d (transfer get_dma_engine copy_2d c) c.world).1;
        })
        s (transfer-Inside c s)

  try_dma-HasShape : (c : FbConsole W) → HasShape c → HasShape (try_dma get_dma_engine copy_2d c).1
  unfolding try_dma
  try_dma-HasShape c s =
      branches (Bool × FbConsole W) (λ r. HasShape r.1) c.state.dma_failed (λ e. s)
        (λ e.
          branches (Bool × FbConsole W) (λ r. HasShape r.1) (get_dma_engine c.world)
            (λ k. attempt-HasShape c s) (λ k. s))

  finish-IsValid :
      (used : Bool) (c : FbConsole W) → HasShape c → IsValid (finish get_dma_engine copy_2d used c)
  unfolding finish AllInside
  finish-IsValid used c s =
      let n = row_count get_dma_engine copy_2d c in
      let left = rows_left c s in
      let bottom : Inside c.state.fb_width c.state.fb_height c.pitch c.bus_addr
          (fill_rect 0 n c.state.fb_width 16 c.state.bg) =
        (omega arith, left) in
      let copied : Inside c.state.fb_width c.state.fb_height c.pitch c.bus_addr
          (copy_region 0 16 0 0 c.state.fb_width n) =
        (omega arith, omega (arith, left), omega arith, omega (arith, left)) in
      let moved : (drawn : List Draw)
          → AllInside c.state.fb_width c.state.fb_height c.pitch c.bus_addr drawn
          → Shape c.state.col c.state.cols c.state.rows c.state.fb_width c.state.fb_height c.pitch
              c.bus_addr drawn =
        λ drawn h.
          Shape-moved c.state.col c.state.col c.state.cols c.state.rows c.state.fb_width
            c.state.fb_height c.pitch c.bus_addr c.drawn drawn s s.col_lt h in
      let last : (c.state.rows + 2 ^ 32 - 1) % 2 ^ 32 < c.state.rows =
        omega (arith, s.some_rows, s.rows_are, s.height_lt) in
      elim used as (λ (u : Bool). IsValid (finish get_dma_engine copy_2d u c)) [
        | true ↦ record {
          shape = moved (fill_rect 0 n c.state.fb_width 16 c.state.bg ∷ c.drawn) (bottom, s.inside);
          row_lt = last;
        }
        | false ↦ record {
          shape =
              moved
                (fill_rect 0 n c.state.fb_width 16 c.state.bg
                  ∷ copy_region 0 16 0 0 c.state.fb_width n
                  ∷ c.drawn)
                (bottom, (copied, s.inside));
          row_lt = last;
        }
      ]

  scroll-IsValid : (c : FbConsole W) → HasShape c → IsValid (scroll get_dma_engine copy_2d c)
  unfolding scroll
  scroll-IsValid c s =
      let counted = record c {
        stats = record c.stats { scrolls = (c.stats.scrolls + 1) % 2 ^ 32 };
      } in
      finish-IsValid (try_dma get_dma_engine copy_2d counted).0
        (try_dma get_dma_engine copy_2d counted).1 (try_dma-HasShape counted s)

  -- the column that there was does not matter
  newline-IsValid :
      (col : ℕ) (c : FbConsole W)
      → (let t = c.state in
          Shape col t.cols t.rows t.fb_width t.fb_height c.pitch c.bus_addr c.drawn)
      → c.state.row < c.state.rows
      → IsValid (newline get_dma_engine copy_2d c)
  unfolding newline
  newline-IsValid col c s row_lt =
      let t = c.state in
      let first : Shape 0 t.cols t.rows t.fb_width t.fb_height c.pitch c.bus_addr c.drawn =
        Shape-moved col 0 t.cols t.rows t.fb_width t.fb_height c.pitch c.bus_addr c.drawn c.drawn s
          (omega (arith, s.col_lt)) s.inside in
      branches (FbConsole W) IsValid (leb t.rows ((t.row + 1) % 2 ^ 32))
        (λ e.
          scroll-IsValid (record c { state = record t { col = 0; row = (t.row + 1) % 2 ^ 32 } })
            first)
        (λ e. record { shape = first; row_lt = not_leb→lt t.rows ((t.row + 1) % 2 ^ 32) e })

  cell_x :
      (c : FbConsole W) (col : ℕ)
      → HasShape c
      → col < c.state.cols
      → col * 8 % 2 ^ 32 + 8 ≤ c.state.fb_width
  cell_x c col s lt = omega (arith, s.cols_are, lt, s.width_le, s.pitch_lt)

  cell_y : (c : FbConsole W) → IsValid c → c.state.row * 16 % 2 ^ 32 + 16 ≤ c.state.fb_height
  cell_y c v = omega (arith, v.shape.rows_are, v.row_lt, v.shape.height_lt)

  printable-IsValid :
      (byte : ℕ) (c : FbConsole W) → IsValid c → IsValid (printable get_dma_engine copy_2d byte c)
  unfolding printable AllInside
  printable-IsValid byte c v =
      let t = c.state in
      let s = v.shape in
      let glyph = draw_glyph (t.col * 8 % 2 ^ 32) (t.row * 16 % 2 ^ 32) byte t.fg t.bg in
      let c' = record c {
        state = record t { col = (t.col + 1) % 2 ^ 32 };
        drawn = glyph ∷ c.drawn;
      } in
      let inside : AllInside t.fb_width t.fb_height c.pitch c.bus_addr (glyph ∷ c.drawn) =
        ((cell_x c t.col s s.col_lt, cell_y c v), s.inside) in
      let moved : (col : ℕ)
          → col < t.cols
          → Shape col t.cols t.rows t.fb_width t.fb_height c.pitch c.bus_addr (glyph ∷ c.drawn) =
        λ col lt.
          Shape-moved t.col col t.cols t.rows t.fb_width t.fb_height c.pitch c.bus_addr c.drawn
            (glyph ∷ c.drawn) s lt inside in
      branches (FbConsole W) IsValid (leb t.cols ((t.col + 1) % 2 ^ 32))
        (λ e. newline-IsValid t.col c' (moved t.col s.col_lt) v.row_lt)
        (λ e. record {
          shape = moved ((t.col + 1) % 2 ^ 32) (not_leb→lt t.cols ((t.col + 1) % 2 ^ 32) e);
          row_lt = v.row_lt;
        })

  backspace-IsValid : (c : FbConsole W) → IsValid c → IsValid (backspace get_dma_engine copy_2d c)
  unfolding backspace AllInside
  backspace-IsValid c v =
      let t = c.state in
      let s = v.shape in
      let col = if ltb 0 t.col then t.col - 1 else t.col in
      let lt : col < t.cols = let h = s.col_lt in ground arith in
      let blank = fill_rect (col * 8 % 2 ^ 32) (t.row * 16 % 2 ^ 32) 8 16 t.bg in
      record {
        shape =
            Shape-moved t.col col t.cols t.rows t.fb_width t.fb_height c.pitch c.bus_addr c.drawn
              (blank ∷ c.drawn) s lt ((cell_x c col s lt, cell_y c v), s.inside);
        row_lt = v.row_lt;
      }

  set_ansi-IsValid :
      (a : AnsiState) (c : FbConsole W) → IsValid c → IsValid (set_ansi get_dma_engine copy_2d a c)
  set_ansi-IsValid a c v = record { shape = v.shape; row_lt = v.row_lt }

  in_normal-IsValid :
      (byte : ℕ) (c : FbConsole W) → IsValid c → IsValid (in_normal get_dma_engine copy_2d byte c)
  unfolding in_normal
  in_normal-IsValid byte c v =
      let t = c.state in
      let s = v.shape in
      branches (FbConsole W) IsValid (byte == 27) (λ e. set_ansi-IsValid escape c v)
        (λ e.
          branches (FbConsole W) IsValid (leb 32 byte && leb byte 126)
            (λ k. printable-IsValid byte c v)
            (λ k.
              branches (FbConsole W) IsValid (byte == 10) (λ n. newline-IsValid t.col c s v.row_lt)
                (λ n.
                  branches (FbConsole W) IsValid (byte == 13)
                    (λ r. record {
                      shape =
                          Shape-moved t.col 0 t.cols t.rows t.fb_width t.fb_height c.pitch
                            c.bus_addr c.drawn c.drawn s (omega (arith, s.col_lt)) s.inside;
                      row_lt = v.row_lt;
                    })
                    (λ r.
                      branches (FbConsole W) IsValid (byte == 8) (λ z. backspace-IsValid c v)
                        (λ z. v)))))

  write_byte-IsValid :
      (a : AnsiState) (byte : ℕ) (c : FbConsole W)
      → IsValid c
      → IsValid (write_byte get_dma_engine copy_2d a byte c)
  unfolding write_byte
  write_byte-IsValid normal byte c v = in_normal-IsValid byte c v
  write_byte-IsValid escape byte c v =
      set_ansi-IsValid (sequence get_dma_engine copy_2d escape byte) c v
  write_byte-IsValid csi byte c v = set_ansi-IsValid (sequence get_dma_engine copy_2d csi byte) c v
  write_byte-IsValid osc byte c v = set_ansi-IsValid (sequence get_dma_engine copy_2d osc byte) c v

  write-IsValid :
      (bytes : List ℕ) (c : FbConsole W)
      → IsValid c
      → IsValid (write get_dma_engine copy_2d bytes c)
  unfolding write
  write-IsValid [] c v = v
  write-IsValid (byte ∷ bytes) c v =
      write-IsValid bytes (write_byte get_dma_engine copy_2d c.state.ansi_state byte c)
        (write_byte-IsValid c.state.ansi_state byte c v)

  new-IsValid :
      (width height pitch bus_addr : ℕ) (stats : FbStats) (w : W)
      → 8 ≤ width
      → 16 ≤ height
      → height < 2 ^ 32
      → 4 * width ≤ pitch
      → pitch < 2 ^ 32
      → bus_addr + pitch * height < 2 ^ 32
      → IsValid (new width height pitch bus_addr stats w)
  unfolding new AllInside
  new-IsValid width height pitch bus_addr stats w wide high height_lt width_le pitch_lt on_bus =
      record {
        shape = record {
          cols_are = refl;
          rows_are = refl;
          col_lt = omega (arith, wide);
          some_rows = omega (arith, high);
          width_le = width_le;
          pitch_lt = pitch_lt;
          height_lt = height_lt;
          on_bus = on_bus;
          inside = ((omega arith, omega arith), tt);
        };
        row_lt = omega (arith, high);
      }

  -- On a frame buffer that holds one character at least, with rows of pixels no longer than its pitch, all of it at bus addresses below 2^32: after any bytes, the cursor is on the screen, and every rectangle, glyph and copy that was drawn lies on the screen, the transfers of the DMA engine included.
  pub new-write-IsValid :
      (width height pitch bus_addr : ℕ) (stats : FbStats) (w : W) (bytes : List ℕ)
      → 8 ≤ width
      → 16 ≤ height
      → height < 2 ^ 32
      → 4 * width ≤ pitch
      → pitch < 2 ^ 32
      → bus_addr + pitch * height < 2 ^ 32
      → IsValid (write get_dma_engine copy_2d bytes (new width height pitch bus_addr stats w))
  new-write-IsValid width height pitch bus_addr stats w bytes wide high height_lt width_le pitch_lt
        on_bus =
      write-IsValid bytes (new width height pitch bus_addr stats w) (
        new-IsValid width height pitch bus_addr stats w wide high height_lt width_le pitch_lt
          on_bus)
