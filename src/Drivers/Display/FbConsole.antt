-- ===== src/Drivers/Display/FbConsole.antt =====
-- src/drivers/display/fb_console.rs: the console on the frame buffer. What it draws is a list of the calls
-- of the drawing context and of the transfers that the DMA engine did, the last one first.
pub mod Bounds
pub mod Escapes
mod Tests
use kruspix.Base.{
  ℕ, zero, suc, ◌+◌, ◌-◌, ◌*◌, ◌/◌, ◌%◌, ◌^◌, Bool, true, false, List, [], ◌∷◌, if◌then◌else◌, ltb,
  leb, ◌==◌, ◌&&◌,
}

abbrev pub font_width : ℕ
font_width = 8

abbrev pub font_height : ℕ
font_height = 16

abbrev pub default_fg : ℕ
default_fg = 4294967295

abbrev pub default_bg : ℕ
default_bg = 4278190080

abbrev pub add32 : ℕ → ℕ → ℕ
add32 a b = (a + b) % 2 ^ 32

abbrev pub sub32 : ℕ → ℕ → ℕ
sub32 a b = (a + 2 ^ 32 - b) % 2 ^ 32

abbrev pub mul32 : ℕ → ℕ → ℕ
mul32 a b = a * b % 2 ^ 32

pub data AnsiState : Type 0 where
  normal : AnsiState
  escape : AnsiState
  csi : AnsiState
  osc : AnsiState

pub record FbConsoleState : Type 0 where
  pub col : ℕ
  pub row : ℕ
  pub cols : ℕ
  pub rows : ℕ
  pub fb_width : ℕ
  pub fb_height : ℕ
  pub fg : ℕ
  pub bg : ℕ
  pub ansi_state : AnsiState
  pub dma_failed : Bool

pub record Dma2DTransfer : Type 0 where
  pub src_bus_addr : ℕ
  pub dst_bus_addr : ℕ
  pub row_len_bytes : ℕ
  pub row_count : ℕ
  pub src_stride : ℕ
  pub dst_stride : ℕ

-- What `copy_2d` returns: `done` is `Ok(())`, the others are `DmaError`.
pub data DmaResult : Type 0 where
  done : DmaResult
  unavailable : DmaResult
  busy : DmaResult
  invalid_transfer : DmaResult
  timeout : DmaResult
  fault : DmaResult

-- The statics of the file.
pub record FbStats : Type 0 where
  pub scrolls : ℕ
  pub dma_attempts : ℕ
  pub dma_successes : ℕ
  pub no_engine_fallbacks : ℕ
  pub busy_fallbacks : ℕ
  pub error_fallbacks : ℕ
  pub disabled_fallbacks : ℕ
  pub last_dma_error : ℕ

abbrev pub reset_fb_stats : FbStats
reset_fb_stats = record {
  scrolls = 0;
  dma_attempts = 0;
  dma_successes = 0;
  no_engine_fallbacks = 0;
  busy_fallbacks = 0;
  error_fallbacks = 0;
  disabled_fallbacks = 0;
  last_dma_error = 0;
}

pub data Draw : Type 0 where
  draw_glyph : (x y byte fg bg : ℕ) → Draw
  fill_rect : (x y w h color : ℕ) → Draw
  copy_region : (src_x src_y dst_x dst_y w h : ℕ) → Draw
  copied_2d : Dma2DTransfer → Draw

-- The console, with `pitch` and `bus_addr` of its frame buffer. `W` is the state of the DMA engine.
pub record FbConsole (W : Type 0) : Type 0 where
  pub state : FbConsoleState
  pub stats : FbStats
  pub pitch : ℕ
  pub bus_addr : ℕ
  pub drawn : List Draw
  pub world : W

-- `FbConsole::new`
unfoldable pub new : {W : Type 0} → ℕ → ℕ → ℕ → ℕ → FbStats → W → FbConsole W
new width height pitch bus_addr stats w = record {
  state = record {
    col = 0;
    row = 0;
    cols = width / font_width;
    rows = height / font_height;
    fb_width = width;
    fb_height = height;
    fg = default_fg;
    bg = default_bg;
    ansi_state = normal;
    dma_failed = false;
  };
  stats = stats;
  pitch = pitch;
  bus_addr = bus_addr;
  drawn = fill_rect 0 0 width height default_bg ∷ [];
  world = w;
}

module _ {W : Type 0} (get_dma_engine : W → Bool)
    (copy_2d : Dma2DTransfer → W → DmaResult × W) where
  abbrev pub draw : Draw → FbConsole W → FbConsole W
  draw d c = record c { drawn = d ∷ c.drawn }

  abbrev pub set_ansi : AnsiState → FbConsole W → FbConsole W
  set_ansi a c = record c { state = record c.state { ansi_state = a } }

  abbrev pub row_count : FbConsole W → ℕ
  row_count c = mul32 (sub32 c.state.rows 1) font_height

  unfoldable pub transfer : FbConsole W → Dma2DTransfer
  transfer c =
      let row_len_bytes = mul32 c.state.fb_width 4 in
      record {
        src_bus_addr = add32 c.bus_addr (mul32 font_height c.pitch);
        dst_bus_addr = c.bus_addr;
        row_len_bytes = row_len_bytes;
        row_count = row_count c;
        src_stride = sub32 c.pitch row_len_bytes;
        dst_stride = sub32 c.pitch row_len_bytes;
      }

  -- an error after which DMA is not tried again
  abbrev pub dma_error : ℕ → FbConsole W → FbConsole W
  dma_error code c = record c {
    stats = record c.stats {
      error_fallbacks = add32 c.stats.error_fallbacks 1;
      last_dma_error = code;
    };
    state = record c.state { dma_failed = true };
  }

  -- whether DMA was used
  unfoldable pub match_result : DmaResult → Dma2DTransfer → FbConsole W → Bool × FbConsole W
  match_result done t c = (
    true,
    record c {
      stats = record c.stats { dma_successes = add32 c.stats.dma_successes 1; last_dma_error = 0 };
      drawn = copied_2d t ∷ c.drawn;
    },
  )
  match_result busy t c = (
    false,
    record c {
      stats = record c.stats {
        busy_fallbacks = add32 c.stats.busy_fallbacks 1;
        last_dma_error = 1;
      };
    },
  )
  match_result unavailable t c = (
    false,
    record c {
      stats = record c.stats {
        no_engine_fallbacks = add32 c.stats.no_engine_fallbacks 1;
        last_dma_error = 2;
      };
    },
  )
  match_result invalid_transfer t c = (false, dma_error 3 c)
  match_result timeout t c = (false, dma_error 4 c)
  match_result fault t c = (false, dma_error 5 c)

  unfoldable pub attempt : FbConsole W → Bool × FbConsole W
  attempt c =
      let (result, w) = copy_2d (transfer c) c.world in
      match_result result (transfer c) (record c {
        stats = record c.stats { dma_attempts = add32 c.stats.dma_attempts 1 };
        world = w;
      })

  unfoldable pub try_dma : FbConsole W → Bool × FbConsole W
  try_dma c =
      if c.state.dma_failed
      then (
        false,
        record c {
          stats = record c.stats { disabled_fallbacks = add32 c.stats.disabled_fallbacks 1 };
        },
      )
      else if get_dma_engine c.world
      then attempt c
      else (
        false,
        record c {
          stats = record c.stats {
            no_engine_fallbacks = add32 c.stats.no_engine_fallbacks 1;
            last_dma_error = 2;
          };
        },
      )

  -- `scroll` once DMA was tried
  unfoldable pub finish : Bool → FbConsole W → FbConsole W
  finish used_dma c =
      let s = c.state in
      let bottom = fill_rect 0 (row_count c) s.fb_width font_height s.bg in
      let shifted =
        if used_dma
        then c.drawn
        else copy_region 0 font_height 0 0 s.fb_width (row_count c) ∷ c.drawn in
      record c { state = record s { row = sub32 s.rows 1 }; drawn = bottom ∷ shifted }

  unfoldable pub scroll : FbConsole W → FbConsole W
  scroll c =
      let (used_dma, c') =
        try_dma (record c { stats = record c.stats { scrolls = add32 c.stats.scrolls 1 } }) in
      finish used_dma c'

  unfoldable pub newline : FbConsole W → FbConsole W
  newline c =
      let c' = record c { state = record c.state { col = 0; row = add32 c.state.row 1 } } in
      if leb c.state.rows (add32 c.state.row 1) then scroll c' else c'

  unfoldable pub printable : ℕ → FbConsole W → FbConsole W
  printable byte c =
      let s = c.state in
      let glyph = draw_glyph (mul32 s.col font_width) (mul32 s.row font_height) byte s.fg s.bg in
      let c' = record c { state = record s { col = add32 s.col 1 }; drawn = glyph ∷ c.drawn } in
      if leb s.cols (add32 s.col 1) then newline c' else c'

  unfoldable pub backspace : FbConsole W → FbConsole W
  backspace c =
      let s = c.state in
      let col = if ltb 0 s.col then s.col - 1 else s.col in
      let blank =
        fill_rect (mul32 col font_width) (mul32 s.row font_height) font_width font_height s.bg in
      record c { state = record s { col = col }; drawn = blank ∷ c.drawn }

  unfoldable pub in_normal : ℕ → FbConsole W → FbConsole W
  in_normal byte c =
      if byte == 27
      then set_ansi escape c
      else if leb 32 byte && leb byte 126
      then printable byte c
      else if byte == 10
      then newline c
      else if byte == 13
      then record c { state = record c.state { col = 0 } }
      else if byte == 8
      then backspace c
      else c

  -- the state after a byte of an escape sequence
  unfoldable pub sequence : AnsiState → ℕ → AnsiState
  sequence normal byte = if byte == 27 then escape else normal
  sequence escape byte =
      if byte == 91 then csi else if byte == 93 then osc else if byte == 27 then escape else normal
  sequence csi byte = if leb 64 byte && leb byte 126 then normal else csi
  sequence osc byte = if byte == 7 then normal else if byte == 27 then escape else osc

  unfoldable pub write_byte : AnsiState → ℕ → FbConsole W → FbConsole W
  write_byte normal byte c = in_normal byte c
  write_byte escape byte c = set_ansi (sequence escape byte) c
  write_byte csi byte c = set_ansi (sequence csi byte) c
  write_byte osc byte c = set_ansi (sequence osc byte) c

  unfoldable pub write : List ℕ → FbConsole W → FbConsole W
  write [] c = c
  write (byte ∷ bytes) c = write bytes (write_byte c.state.ansi_state byte c)
