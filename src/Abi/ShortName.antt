-- ===== src/Abi/ShortName.antt =====
-- libs/tarnos-abi/src/lib.rs: a name of at most 16 bytes in two words and a length.
use tarn_os.Prelude.{
  ℕ, ◌≡◌, List, ◌++◌, ap, ap₂, sym, append-nil, ◌∙◌, min, length, take, drop, arith,
}
use tarn_os.Prelude.Bytes.{
  from_le, to_le, copied, lossy_text, words_of, bytes_of, AllBytes, AllBytes-copied, AllAscii,
  AllAscii-take, ascii_AllBytes, bytes_of-words_of, length-copied, take-copied, is_utf8_of_ascii,
}

-- `SHORT_NAME_MAX`.
abbrev pub short_name_max : ℕ
short_name_max = 16

unfoldable pub pack_short_name : List ℕ → ℕ × ℕ × ℕ
pack_short_name name =
    let buf = copied short_name_max name in
    (from_le (take 8 buf), from_le (take 8 (drop 8 buf)), min (length name) short_name_max)

unfoldable pub unpack_short_name : ℕ → ℕ → ℕ → List ℕ
unpack_short_name lo hi len = lossy_text (take (min len short_name_max) (to_le 8 lo ++ to_le 8 hi))

two_words :
    (buf : List ℕ)
    → length buf ≡ 16
    → AllBytes buf
    → to_le 8 (from_le (take 8 buf)) ++ to_le 8 (from_le (take 8 (drop 8 buf))) ≡ buf
unfolding words_of bytes_of
two_words buf e h =
    ap (◌++◌ (to_le 8 (from_le (take 8 buf)))) (sym (append-nil _)) ∙ bytes_of-words_of 2 buf e h

-- A name goes through the registers cut at 16 bytes; if the cut splits a character, the reader
-- gets the marker for an invalid text.
pub unpack_short_name-pack_short_name :
    (name : List ℕ)
    → AllBytes name
    → let (lo, hi, len) = pack_short_name name in
      unpack_short_name lo hi len ≡ lossy_text (take short_name_max name)
unfolding pack_short_name unpack_short_name
unpack_short_name-pack_short_name name h = ap lossy_text (
    ap₂ take cut (
      two_words (copied short_name_max name) (length-copied short_name_max name)
        (AllBytes-copied short_name_max name h))
    ∙ take-copied short_name_max name)
  where
    cut : min (min (length name) short_name_max) short_name_max ≡ min (length name) short_name_max
    cut = omega arith

-- An ASCII name comes back as its first 16 bytes.
pub unpack_short_name-pack_short_name_ascii :
    (name : List ℕ)
    → AllAscii name
    → let (lo, hi, len) = pack_short_name name in
      unpack_short_name lo hi len ≡ take short_name_max name
unpack_short_name-pack_short_name_ascii name h =
    unpack_short_name-pack_short_name name (ascii_AllBytes name h)
    ∙ rw (is_utf8_of_ascii (take short_name_max name) (AllAscii-take short_name_max name h))
