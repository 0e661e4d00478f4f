-- ===== src/Kernel/Console/Boot.antt =====
-- What is printed before the first console.
use kruspix.Base.{
  ℕ, ◌≡◌, refl, sym, ap, ◌∙◌, none, some, List, [], ◌∷◌, ◌++◌, append-nil, append_assoc, arith,
  if◌then◌else◌, ltb, inl, inr, Bool-cases,
}
use kruspix.Base.Text.{Bytes}
use kruspix.Common.RingArray.{RingArray, new, push, iter, collect}
use kruspix.Common.RingArray.Contents.{
  contents, last, IsValid, new-IsValid, contents-clear, len-contents, length-contents,
}
use kruspix.Common.RingArray.History.{push_all, push_all-new, push_all-IsValid, iter-contents}
use kruspix.Kernel.Console.{
  Consoles, boot_console_size, initial, write_to, push_bytes, console_write_early, console_write,
  console_write_str, flush, register_early, register_early_console,
}

unfoldable pub print_all : List Bytes → Consoles → Consoles
print_all [] c = c
print_all (s ∷ texts) c = print_all texts (console_write_str s c)

unfoldable pub concat : List Bytes → Bytes
concat [] = []
concat (s ∷ texts) = s ++ concat texts

-- the ASCII bytes of a text, each written to console `k` by itself
unfoldable pub single_bytes : ℕ → Bytes → List (ℕ × Bytes)
single_bytes k [] = []
single_bytes k (byte ∷ s) =
    if ltb byte 128 then (k, byte ∷ []) ∷ single_bytes k s else single_bytes k s

push_bytes_lem :
    (s : Bytes) (buf : RingArray ℕ) → push_bytes s buf ≡ push_all boot_console_size buf s
unfolding push_bytes push_all
push_bytes_lem [] buf = refl
push_bytes_lem (byte ∷ s) buf = push_bytes_lem s (push boot_console_size buf byte)

push_all-append :
    (s t : Bytes) (buf : RingArray ℕ)
    → push_all boot_console_size (push_all boot_console_size buf s) t
      ≡ push_all boot_console_size buf (s ++ t)
unfolding push_all
push_all-append [] t buf = refl
push_all-append (b ∷ s) t buf = push_all-append s t (push boot_console_size buf b)

-- Without a console a text goes to the buffer and nowhere else.
print_all_lem :
    (texts : List Bytes) (buf : RingArray ℕ)
    → print_all texts (record initial { boot_console = buf })
      ≡ record initial { boot_console = push_all boot_console_size buf (concat texts) }
unfolding print_all concat console_write_str console_write console_write_early initial push_all
print_all_lem [] buf = refl
print_all_lem (s ∷ texts) buf =
    ap (λ b. print_all texts (record initial { boot_console = b })) (push_bytes_lem s buf)
    ∙ print_all_lem texts (push_all boot_console_size buf s)
    ∙ ap (λ b. record initial { boot_console = b }) (push_all-append s (concat texts) buf)

flush_lem :
    (k : ℕ) (buf : Bytes) (c : Consoles)
    → flush k buf c ≡ record c { written = c.written ++ single_bytes k buf }
unfolding flush single_bytes
flush_lem k [] c = ap (λ w. record c { written = w }) (sym (append-nil c.written))
flush_lem k (byte ∷ buf) c = elim (Bool-cases (ltb byte 128)) [
  | inl e ↦ rw e (
      flush_lem k buf (write_to k (byte ∷ []) c)
      ∙ ap (λ w. record c { written = w })
          (append_assoc c.written ((k, byte ∷ []) ∷ []) (single_bytes k buf)))
  | inr e ↦ rw e (flush_lem k buf c)
]

register_early_lem :
    (k : ℕ) (c : Consoles)
    → IsValid boot_console_size c.boot_console
    → ((register_early none k c).written ≡ c.written ++ single_bytes k (contents c.boot_console))
      × (contents (register_early none k c).boot_console ≡ [])
      × ((register_early none k c).early_console ≡ some k)
unfolding register_early
register_early_lem k c v =
    let items =
      collect boot_console_size boot_console_size (iter boot_console_size c.boot_console) in
    let visited : items ≡ contents c.boot_console =
      iter-contents boot_console_size c.boot_console boot_console_size v (
        let a = len-contents boot_console_size c.boot_console v in
        let b = length-contents boot_console_size c.boot_console v in omega arith) in
    (
      ap (λ (d : Consoles). d.written) (flush_lem k items c)
          ∙ ap (λ b. c.written ++ single_bytes k b) visited,
      contents-clear boot_console_size (flush k items c).boot_console,
      refl,
    )

-- Of the texts that are printed before any console is registered, the first early console gets the ASCII
-- bytes among the last 4096 bytes, one by one in order; the buffer is empty then, and the console is the
-- early console.
pub register_early_console-print_all :
    (texts : List Bytes) (k : ℕ)
    → let c = register_early_console k (print_all texts initial) in
      (c.written ≡ single_bytes k (last boot_console_size (concat texts)))
      × (contents c.boot_console ≡ [])
      × (c.early_console ≡ some k)
unfolding initial register_early_console
register_early_console-print_all texts k =
    let start : RingArray ℕ = new boot_console_size 0 in
    let v : IsValid boot_console_size start = new-IsValid boot_console_size 0 (omega arith) in
    let valid = push_all-IsValid boot_console_size (concat texts) start v in
    let (written, emptied, registered) =
      register_early_lem k
        (record initial { boot_console = push_all boot_console_size start (concat texts) }) valid in
    rw (print_all_lem texts start) (
      written
          ∙ ap (single_bytes k) (push_all-new boot_console_size 0 (concat texts) (omega arith)).0,
      emptied,
      registered,
    )
