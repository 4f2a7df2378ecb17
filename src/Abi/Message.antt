-- ===== src/Abi/Message.antt =====
-- libs/tarnos-abi/src/lib.rs: `Message`, four inline words and a tag, and the text that it carries.
use tarn_os.Prelude.{ℕ, ◌*◌, ◌≡◌, List, ap, ap₂, ◌∙◌, min, length, take, arith}
use tarn_os.Prelude.Bytes.{
  copied, lossy_text, words_of, bytes_of, AllBytes, AllBytes-copied, AllAscii, AllAscii-take,
  ascii_AllBytes, bytes_of-words_of, length-copied, take-copied, is_utf8_of_ascii,
}

-- `MESSAGE_INLINE_WORDS`.
abbrev pub inline_words : ℕ
inline_words = 4

abbrev pub inline_bytes : ℕ
inline_bytes = inline_words * 8

-- `words` holds `inline_words` words.
pub record Message : Type 0 where
  pub tag : ℕ
  pub words : List ℕ

unfoldable pub from_str_lossy : List ℕ → Message
from_str_lossy bytes = record {
  tag = min (length bytes) inline_bytes;
  words = words_of inline_words (copied inline_bytes bytes);
}

unfoldable pub as_str_lossy : Message → List ℕ
as_str_lossy m = lossy_text (take (min m.tag inline_bytes) (bytes_of m.words))

-- A text goes through a message cut at 32 bytes; if the cut splits a character, the reader gets
-- the marker for an invalid text.
pub as_str_lossy-from_str_lossy :
    (bytes : List ℕ)
    → AllBytes bytes
    → as_str_lossy (from_str_lossy bytes) ≡ lossy_text (take inline_bytes bytes)
unfolding as_str_lossy from_str_lossy
as_str_lossy-from_str_lossy bytes h = ap lossy_text (
    ap₂ take cut (
      bytes_of-words_of inline_words (copied inline_bytes bytes) (length-copied inline_bytes bytes)
        (AllBytes-copied inline_bytes bytes h))
    ∙ take-copied inline_bytes bytes)
  where
    cut : min (min (length bytes) inline_bytes) inline_bytes ≡ min (length bytes) inline_bytes
    cut = omega arith

-- An ASCII text comes back as its first 32 bytes.
pub as_str_lossy-from_str_lossy_ascii :
    (bytes : List ℕ)
    → AllAscii bytes
    → as_str_lossy (from_str_lossy bytes) ≡ take inline_bytes bytes
as_str_lossy-from_str_lossy_ascii bytes h =
    as_str_lossy-from_str_lossy bytes (ascii_AllBytes bytes h)
    ∙ rw (is_utf8_of_ascii (take inline_bytes bytes) (AllAscii-take inline_bytes bytes h))
