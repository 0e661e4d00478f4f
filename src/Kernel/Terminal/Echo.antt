-- ===== src/Kernel/Terminal/Echo.antt =====
-- The screen of the primary device shows the line buffer.
use kruspix.Base.{
  ℕ, Bool, true, false, not, ◌&&◌, ◌||◌, ◌≡◌, refl, sym, ap, ◌∙◌, subst, List, [], ◌∷◌, ◌++◌,
  append_assoc, if◌then◌else◌, ◌==◌, arith, inl, inr, Bool-cases, ne→not_==, eq→==,
}
use kruspix.Base.Text.{Bytes}
use kruspix.Kernel.Terminal.{
  Device, Terminal, device_write, write_to_secondary_outputs, write, is_newline, is_delete,
  is_printable, crlf, rub_out, pop, echo_write, rubbed_out, line_discipline,
}

-- One row of a screen: the cells left of the cursor, and those from the cursor on.
pub record Row : Type 0 where
  pub left : Bytes
  pub right : Bytes

unfoldable pub last_of : Bytes → Bytes
last_of [] = []
last_of (b ∷ []) = b ∷ []
last_of (b ∷ c ∷ bs) = last_of (c ∷ bs)

unfoldable pub tail : Bytes → Bytes
tail [] = []
tail (b ∷ bs) = bs

unfoldable pub spaces : Bytes → Bytes
spaces [] = []
spaces (b ∷ bs) = 32 ∷ spaces bs

-- What a terminal emulator does with a byte: backspace and carriage return move the cursor, a line feed
-- begins a blank row, all else overwrites the cell at the cursor.
abbrev pub display : ℕ → Row → Row
display byte r =
    if byte == 8
    then record { left = pop r.left; right = last_of r.left ++ r.right }
    else if byte == 13
    then record { left = []; right = r.left ++ r.right }
    else if byte == 10
    then record { left = spaces r.left; right = [] }
    else record { left = r.left ++ byte ∷ []; right = tail r.right }

unfoldable pub display_all : Bytes → Row → Row
display_all [] r = r
display_all (b ∷ bs) r = display_all bs (display b r)

-- The row after all that was written to a device.
unfoldable pub screen : ℕ → List (ℕ × Bytes) → Row → Row
screen handle [] r = r
screen handle ((h, bs) ∷ log) r = screen handle log (if h == handle then display_all bs r else r)

unfoldable pub is_blank : Bytes → Bool
is_blank [] = true
is_blank (b ∷ bs) = (b == 32) && is_blank bs

-- No other device is the primary one under another id.
unfoldable pub one_primary : Device → List Device → Bool
one_primary primary [] = true
one_primary primary (dev ∷ devs) =
    (dev.id == primary.id || not (dev.handle == primary.handle)) && one_primary primary devs

screen-append :
    (h : ℕ) (log more : List (ℕ × Bytes)) (r : Row)
    → screen h (log ++ more) r ≡ screen h more (screen h log r)
unfolding screen
screen-append h [] more r = refl
screen-append h ((k, bs) ∷ log) more r =
    screen-append h log more (if k == h then display_all bs r else r)

screen-secondary :
    (primary : Device) (bs : Bytes) (devs : List Device) (log : List (ℕ × Bytes)) (r : Row)
    → one_primary primary devs ≡ true
    → screen primary.handle (write_to_secondary_outputs primary.id bs devs log) r
      ≡ screen primary.handle log r
unfolding write_to_secondary_outputs one_primary screen
screen-secondary primary bs [] log r h = refl
screen-secondary primary bs (dev ∷ devs) log r h = elim (Bool-cases (dev.id == primary.id)) [
  | inl e ↦ rw e (screen-secondary primary bs devs log r (ground (arith, h)))
  | inr e ↦ rw e (
      screen-secondary primary bs devs (device_write dev bs log) r (ground (arith, h))
      ∙ screen-append primary.handle log ((dev.handle, bs) ∷ []) r
      ∙ (let d : (dev.handle == primary.handle) ≡ false = ground (arith, h) in rw d refl))
]

screen-write :
    (bs : Bytes) (t : Terminal) (r : Row)
    → one_primary t.output t.output_devices ≡ true
    → screen t.output.handle (write bs t).written r
      ≡ display_all bs (screen t.output.handle t.written r)
unfolding write screen
screen-write bs t r h =
    screen-secondary t.output bs t.output_devices (device_write t.output bs t.written) r h
    ∙ screen-append t.output.handle t.written ((t.output.handle, bs) ∷ []) r
    ∙ rw (eq→== t.output.handle t.output.handle refl) refl

-- The row shows `prompt` and the line buffer up to the cursor, and is blank from there on.
pub record Shows (prompt : Bytes) (start : Row) (t : Terminal) : Type 0 where
  pub echoes : t.echo ≡ true
  pub primary : one_primary t.output t.output_devices ≡ true
  pub shown : (screen t.output.handle t.written start).left ≡ prompt ++ t.line_buffer
  pub blank : is_blank (screen t.output.handle t.written start).right ≡ true

tail-blank : (bs : Bytes) → is_blank bs ≡ true → is_blank (tail bs) ≡ true
unfolding tail is_blank
tail-blank [] h = refl
tail-blank (b ∷ bs) h = ground arith

pop-append : (xs ys : Bytes) (b : ℕ) → pop (xs ++ b ∷ ys) ≡ xs ++ pop (b ∷ ys)
unfolding pop
pop-append [] ys b = refl
pop-append (x ∷ []) ys b = refl
pop-append (x ∷ y ∷ xs) ys b = ap (x ∷◌) (pop-append (y ∷ xs) ys b)

pub pop-last : (xs : Bytes) (c : ℕ) → (pop (xs ++ c ∷ []) ≡ xs) × (last_of (xs ++ c ∷ []) ≡ c ∷ [])
unfolding pop last_of
pop-last [] c = (refl, refl)
pop-last (x ∷ []) c = (refl, refl)
pop-last (x ∷ y ∷ xs) c = let (p, q) = pop-last (y ∷ xs) c in (ap (x ∷◌) p, q)

tail-last_of : (xs ys : Bytes) → is_blank ys ≡ true → is_blank (tail (last_of xs ++ ys)) ≡ true
unfolding tail last_of
tail-last_of [] ys h = tail-blank ys h
tail-last_of (x ∷ []) ys h = h
tail-last_of (x ∷ y ∷ xs) ys h = tail-last_of (y ∷ xs) ys h

-- The three bytes of a rub out blank the cell before the cursor.
display_rub_out :
    (r : Row)
    → is_blank r.right ≡ true
    → ((display_all rub_out r).left ≡ pop r.left) × (is_blank (display_all rub_out r).right ≡ true)
unfolding display_all is_blank
display_rub_out r h =
    let (p, q) = pop-last (pop r.left) 32 in (p, rw q (tail-last_of r.left r.right h))

echo-Shows :
    (bs prompt prompt' buffer : Bytes) (start : Row) (t : Terminal)
    → Shows prompt start t
    → (display_all bs (screen t.output.handle t.written start)).left ≡ prompt' ++ buffer
    → is_blank (display_all bs (screen t.output.handle t.written start)).right ≡ true
    → Shows prompt' start (record (echo_write bs t) { line_buffer = buffer })
unfolding write
echo-Shows bs prompt prompt' buffer start t v l b =
    subst
      (λ (on : Bool).
        Shows prompt' start (record (if on then write bs t else t) { line_buffer = buffer }))
      (sym v.echoes)
      (record {
        echoes = v.echoes;
        primary = v.primary;
        shown = ap (λ (r : Row). r.left) (screen-write bs t start v.primary) ∙ l;
        blank = ap (λ (r : Row). is_blank r.right) (screen-write bs t start v.primary) ∙ b;
      })

-- The line buffer may as well be changed before the echo.
buffer_first :
    (on : Bool) (bs buffer : Bytes) (t : Terminal)
    → record (if on then write bs t else t) { line_buffer = buffer } ≡ (
        if on
        then write bs (record t { line_buffer = buffer })
        else record t { line_buffer = buffer })
unfolding write
buffer_first true bs buffer t = refl
buffer_first false bs buffer t = refl

newline-Shows :
    (prompt : Bytes) (start : Row) (t : Terminal)
    → Shows prompt start t
    → Shows [] start (record (echo_write crlf t) { line_buffer = [] })
unfolding display_all spaces is_blank
newline-Shows prompt start t v = echo-Shows crlf prompt [] [] start t v refl refl

rubbed_out-Shows :
    (prompt buffer : Bytes) (start : Row) (t : Terminal)
    → Shows prompt start t
    → t.line_buffer ≡ buffer
    → Shows prompt start (rubbed_out buffer t)
unfolding rubbed_out
rubbed_out-Shows prompt [] start t v e = v
rubbed_out-Shows prompt (b ∷ bs) start t v e =
    let row = screen t.output.handle t.written start in
    let (left, right) = display_rub_out row v.blank in
    let shorter = left ∙ ap pop (v.shown ∙ ap (prompt ++◌) e) ∙ pop-append prompt bs b in
    subst (Shows prompt start) (buffer_first t.echo rub_out (pop (b ∷ bs)) t)
      (echo-Shows rub_out prompt prompt (pop (b ∷ bs)) start t v shorter right)

printable-Shows :
    (byte : ℕ) (prompt : Bytes) (start : Row) (t : Terminal)
    → is_printable byte ≡ true
    → Shows prompt start t
    → Shows prompt start
        (echo_write (byte ∷ []) (record t { line_buffer = t.line_buffer ++ byte ∷ [] }))
unfolding display_all
printable-Shows byte prompt start t p v =
    let row = screen t.output.handle t.written start in
    let plain : display byte row ≡ record { left = row.left ++ byte ∷ []; right = tail row.right } =
      rw
        (
          ne→not_== byte 8 (ground arith),
          ne→not_== byte 13 (ground arith),
          ne→not_== byte 10 (ground arith),
        )
        refl in
    subst (Shows prompt start) (buffer_first t.echo (byte ∷ []) (t.line_buffer ++ byte ∷ []) t) (
      echo-Shows (byte ∷ []) prompt prompt (t.line_buffer ++ byte ∷ []) start t v
        (ap (λ (r : Row). r.left) plain
          ∙ ap (◌++ byte ∷ []) v.shown
          ∙ append_assoc prompt t.line_buffer (byte ∷ []))
        (ap (λ (r : Row). is_blank r.right) plain ∙ tail-blank row.right v.blank))

-- Where the terminal echoes, and no device but the primary one is the primary one, the primary device shows
-- the line buffer behind the prompt after every byte, with the cursor at its end and nothing behind it; a
-- newline begins an empty row without a prompt.
pub line_discipline-Shows :
    (byte : ℕ) (prompt : Bytes) (start : Row) (t : Terminal)
    → Shows prompt start t
    → Shows (if is_newline byte then [] else prompt) start (line_discipline byte t).1
unfolding line_discipline
line_discipline-Shows byte prompt start t v = elim (Bool-cases (is_newline byte)) [
  | inl e ↦ rw e (newline-Shows prompt start t v)
  | inr e ↦ rw e (elim (Bool-cases (is_delete byte)) [
    | inl f ↦ rw f (rubbed_out-Shows prompt t.line_buffer start t v refl)
    | inr f ↦ rw f (elim (Bool-cases (is_printable byte)) [
      | inl g ↦ rw g (printable-Shows byte prompt start t g v)
      | inr g ↦ rw g v
    ])
  ])
]
