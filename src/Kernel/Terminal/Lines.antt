-- ===== src/Kernel/Terminal/Lines.antt =====
-- What the listeners get of what is typed.
use kruspix.Base.{
  ℕ, Bool, true, false, not, ◌&&◌, ◌||◌, ◌≡◌, refl, sym, ap, ◌∙◌, Option, none, List, [], ◌∷◌, ◌++◌,
  append-nil, append_assoc, if◌then◌else◌, arith,
}
use kruspix.Base.Text.{Bytes}
use kruspix.Kernel.Terminal.{
  Terminal, write, is_newline, is_delete, is_printable, crlf, rub_out, pop, echo_write, rubbed_out,
  line_discipline, deliver, deliver_line, feed, poll,
}
use kruspix.Kernel.Terminal.Echo.{pop-last}

-- Typing: a byte of the text, bytes that are deleted again at once, or a byte that is ignored.
pub data Key : Type 0 where
  right noise : ℕ → Key
  mistake : Bytes → Key

unfoldable pub deletes : Bytes → Bytes → Bytes
deletes [] rest = rest
deletes (b ∷ garbage) rest = deletes garbage (127 ∷ rest)

-- the bytes of the keys, and `rest` behind them
unfoldable pub typing : List Key → Bytes → Bytes
typing [] rest = rest
typing (right b ∷ keys) rest = b ∷ typing keys rest
typing (noise b ∷ keys) rest = b ∷ typing keys rest
typing (mistake garbage ∷ keys) rest = garbage ++ deletes garbage (typing keys rest)

unfoldable pub text : List Key → Bytes
text [] = []
text (right b ∷ keys) = b ∷ text keys
text (noise b ∷ keys) = text keys
text (mistake garbage ∷ keys) = text keys

unfoldable pub all_printable : Bytes → Bool
all_printable [] = true
all_printable (b ∷ bs) = is_printable b && all_printable bs

unfoldable pub are_keys : List Key → Bool
are_keys [] = true
are_keys (right b ∷ keys) = is_printable b && are_keys keys
are_keys (noise b ∷ keys) = not (is_newline b || (is_delete b || is_printable b)) && are_keys keys
are_keys (mistake garbage ∷ keys) = all_printable garbage && are_keys keys

unfoldable pub concat : List Bytes → Bytes
concat [] = []
concat (bs ∷ inputs) = bs ++ concat inputs

-- An echo changes what is written, and nothing else.
echo_lem :
    (on : Bool) (bs : Bytes) (t : Terminal)
    → (if on then write bs t else t) ≡ record t { written = (if on then write bs t else t).written }
unfolding write
echo_lem true bs t = refl
echo_lem false bs t = refl

line_discipline-printable :
    (b : ℕ) (t : Terminal)
    → is_printable b ≡ true
    → (w : List (ℕ × Bytes)) × (line_discipline b t
        ≡ (none, record t { line_buffer = t.line_buffer ++ b ∷ []; written = w }))
unfolding line_discipline
line_discipline-printable b t p =
    let u = record t { line_buffer = t.line_buffer ++ b ∷ [] } in
    let newline : is_newline b ≡ false = ground arith in
    let delete : is_delete b ≡ false = ground arith in
    (
      (echo_write (b ∷ []) u).written,
      rw (newline, delete, p) (ap (λ v. (none, v)) (echo_lem t.echo (b ∷ []) u)),
    )

rubbed_out_lem :
    (lb : Bytes) (b : ℕ) (t : Terminal)
    → rubbed_out (lb ++ b ∷ []) t ≡ echo_write rub_out (record t { line_buffer = lb })
unfolding rubbed_out
rubbed_out_lem [] b t = unfold pop in refl
rubbed_out_lem (x ∷ lb) b t =
    ap (λ l. echo_write rub_out (record t { line_buffer = l })) (pop-last (x ∷ lb) b).0

line_discipline-delete :
    (lb : Bytes) (b : ℕ) (t : Terminal)
    → t.line_buffer ≡ lb ++ b ∷ []
    → (w : List (ℕ × Bytes)) × (line_discipline 127 t
        ≡ (none, record t { line_buffer = lb; written = w }))
unfolding line_discipline
line_discipline-delete lb b t e =
    let u = record t { line_buffer = lb } in
    (
      (echo_write rub_out u).written,
      ap (λ v. (none, v))
          (ap (λ l. rubbed_out l t) e ∙ rubbed_out_lem lb b t ∙ echo_lem t.echo rub_out u),
    )

module _ (on_line : ℕ → Bytes → Terminal → Terminal) where
  -- The rest of the loop after a byte.
  abbrev goes_on : Bytes → Option Bytes × Terminal → Terminal
  goes_on rest r = feed on_line rest (deliver_line on_line r.0 r.1)

  feed-mistake :
      (garbage rest : Bytes) (t : Terminal)
      → all_printable garbage ≡ true
      → (w : List (ℕ × Bytes)) × (feed on_line (garbage ++ deletes garbage rest) t
          ≡ feed on_line rest (record t { written = w }))
  unfolding deletes feed deliver_line all_printable
  feed-mistake [] rest t h = (t.written, refl)
  feed-mistake (b ∷ garbage) rest t h =
      let (w, typed) = line_discipline-printable b t (ground arith) in
      let t' = record t { line_buffer = t.line_buffer ++ b ∷ []; written = w } in
      let (w', ih) = feed-mistake garbage (127 ∷ rest) t' (ground arith) in
      let (w'', erased) =
        line_discipline-delete t.line_buffer b (record t' { written = w' }) refl in
      (
        w'',
        ap (goes_on (garbage ++ deletes garbage (127 ∷ rest))) typed
            ∙ ih
            ∙ ap (goes_on rest) erased,
      )

  line_discipline-noise :
      (b : ℕ) (t : Terminal)
      → not (is_newline b || (is_delete b || is_printable b)) ≡ true
      → line_discipline b t ≡ (none, t)
  unfolding line_discipline
  line_discipline-noise b t h =
      let newline : is_newline b ≡ false = ground arith in
      let delete : is_delete b ≡ false = ground arith in
      let printable : is_printable b ≡ false = ground arith in rw (newline, delete, printable) refl

  feed-typing :
      (keys : List Key) (rest : Bytes) (t : Terminal)
      → are_keys keys ≡ true
      → (w : List (ℕ × Bytes)) × (feed on_line (typing keys rest) t
          ≡ feed on_line rest (record t { line_buffer = t.line_buffer ++ text keys; written = w }))
  unfolding typing text are_keys feed deliver_line
  feed-typing [] rest t h = (
    t.written,
    ap (λ l. feed on_line rest (record t { line_buffer = l })) (sym (append-nil t.line_buffer)),
  )
  feed-typing (right b ∷ keys) rest t h =
      let (w, typed) = line_discipline-printable b t (ground arith) in
      let t' = record t { line_buffer = t.line_buffer ++ b ∷ []; written = w } in
      let (w', ih) = feed-typing keys rest t' (ground arith) in
      (
        w',
        ap (goes_on (typing keys rest)) typed
            ∙ ih
            ∙ ap (λ l. feed on_line rest (record t { line_buffer = l; written = w' }))
                (append_assoc t.line_buffer (b ∷ []) (text keys)),
      )
  feed-typing (noise b ∷ keys) rest t h =
      let (w, ih) = feed-typing keys rest t (ground arith) in
      (w, ap (goes_on (typing keys rest)) (line_discipline-noise b t (ground arith)) ∙ ih)
  feed-typing (mistake garbage ∷ keys) rest t h =
      let (w, fixed) = feed-mistake garbage (typing keys rest) t (ground arith) in
      let (w', ih) = feed-typing keys rest (record t { written = w }) (ground arith) in
      (w', fixed ∙ ih)

  -- A line, and what follows it.
  feed-line :
      (keys : List Key) (rest : Bytes) (t : Terminal)
      → are_keys keys ≡ true
      → t.line_buffer ≡ []
      → (w : List (ℕ × Bytes)) × (feed on_line (typing keys (13 ∷ rest)) t
          ≡ feed on_line rest (deliver on_line t.listeners (text keys) (record t { written = w })))
  unfolding feed deliver_line line_discipline
  feed-line keys rest t h e =
      let (w, typed) = feed-typing keys (13 ∷ rest) t h in
      let u = record t { line_buffer = t.line_buffer ++ text keys; written = w } in
      let after = (echo_write crlf u).written in
      let gives = λ (l line : Bytes).
        feed on_line rest
          (deliver on_line t.listeners line (record t { line_buffer = l; written = after })) in
      (
        after,
        typed
            ∙ ap
                (λ (v : Terminal). feed on_line rest (
                  deliver on_line v.listeners (t.line_buffer ++ text keys)
                    (record v { line_buffer = [] })))
                (echo_lem t.echo crlf u)
            ∙ ap (λ l. gives [] (l ++ text keys)) e
            ∙ ap (λ l. gives l (text keys)) (sym e),
      )

  feed-append :
      (bs cs : Bytes) (t : Terminal)
      → feed on_line (bs ++ cs) t ≡ feed on_line cs (feed on_line bs t)
  unfolding feed
  feed-append [] cs t = refl
  feed-append (b ∷ bs) cs t =
      feed-append bs cs (deliver_line on_line (line_discipline b t).0 (line_discipline b t).1)

  poll-feed :
      (inputs : List Bytes) (t : Terminal) → poll on_line inputs t ≡ feed on_line (concat inputs) t
  unfolding poll concat feed
  poll-feed [] t = refl
  poll-feed (bs ∷ inputs) t =
      poll-feed inputs (feed on_line bs t) ∙ sym (feed-append bs (concat inputs) t)

  -- At an empty line buffer, keys and a newline behind them, in however many pieces the input devices give
  -- them, bring each listener once the text without what was deleted or ignored, and leave the terminal as
  -- it was but for what is written.
  pub poll-typing :
      (keys : List Key) (inputs : List Bytes) (t : Terminal)
      → concat inputs ≡ typing keys (13 ∷ [])
      → are_keys keys ≡ true
      → t.line_buffer ≡ []
      → (w : List (ℕ × Bytes)) × (poll on_line inputs t
          ≡ deliver on_line t.listeners (text keys) (record t { written = w }))
  unfolding feed
  poll-typing keys inputs t c h e =
      let (w, delivered) = feed-line keys [] t h e in
      (w, poll-feed inputs t ∙ ap (λ bs. feed on_line bs t) c ∙ delivered)
