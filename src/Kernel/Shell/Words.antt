-- ===== src/Kernel/Shell/Words.antt =====
-- From the keys that are typed to the words of a command.
use kruspix.Base.{ℕ, Bool, true, not, ◌&&◌, List, [], ◌∷◌, ◌++◌}
use kruspix.Base.Text.{Bytes}
use kruspix.Kernel.Terminal.{Terminal}
use kruspix.Kernel.Shell.Runs.{Runs}
use kruspix.Kernel.Shell.{is_whitespace, end_word}

unfoldable pub all_whitespace : Bytes → Bool
all_whitespace [] = true
all_whitespace (b ∷ bs) = is_whitespace b && all_whitespace bs

unfoldable pub no_whitespace : Bytes → Bool
no_whitespace [] = true
no_whitespace (b ∷ bs) = not (is_whitespace b) && no_whitespace bs

-- A word, one white space behind it, and more of it.
pub record Spaced : Type 0 where
  pub first : ℕ
  pub word : Bytes
  pub space : ℕ
  pub gap : Bytes

-- words with white space behind each, and a last word or nothing
unfoldable pub spread : List Spaced → Bytes → Bytes
spread [] last = last
spread (item ∷ items) last =
    item.first ∷ (item.word ++ (item.space ∷ (item.gap ++ spread items last)))

unfoldable pub are_spaced : List Spaced → Bytes → Bool
are_spaced [] last = no_whitespace last
are_spaced (item ∷ items) last =
    no_whitespace (item.first ∷ item.word)
    && (all_whitespace (item.space ∷ item.gap) && are_spaced items last)

unfoldable pub words : List Spaced → Bytes → List Bytes
words [] last = end_word last []
words (item ∷ items) last = (item.first ∷ item.word) ∷ words items last
