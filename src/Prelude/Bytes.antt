-- ===== src/Prelude/Bytes.antt =====
-- Little-endian words and the bytes of a text.
use Prim.Native.Nat.{ℕ, zero, suc, ◌+◌, ◌-◌, ◌*◌, ◌/◌, ◌%◌, ◌^◌, ◌<◌, min}
use mathlib.Core.Path.{◌≡◌, refl, ap, ap₂, ◌∙◌}
use mathlib.Core.Bool.{Bool, true, false, ◌&&◌}
use mathlib.Core.List.{List, [], ◌∷◌, ◌++◌}
use mathlib.Core.Option.{none, some, Option}
use Prim.Native.Char.{code}
use Prim.Native.String.{String}
use native.Mathlib.Omega.{arith}
use native.Mathlib.Nat.{pow-suc}
use tarn_os.Prelude.Logic.{leb, ltb, ◌==◌, if◌then◌else◌, lt→ltb}
use tarn_os.Prelude.Lists.{
  length, take, drop, replicate, length-append, length-replicate, length-take, length-drop,
  take-append-drop, take-append_exact,
}

-- The code points of a text: its bytes, if it is ASCII.
abbrev pub codes : String → List ℕ
codes String.[] = []
codes (String.◌∷◌ c s) = code c ∷ codes s

-- `from_le_bytes`.
abbrev pub from_le : List ℕ → ℕ
from_le [] = 0
from_le (b ∷ bs) = b + 256 * from_le bs

-- `to_le_bytes` of a word of `n` bytes.
abbrev pub to_le : ℕ → ℕ → List ℕ
to_le zero w = []
to_le (suc n) w = w % 256 ∷ to_le n (w / 256)

abbrev pub AllBytes : List ℕ → Type 0
AllBytes [] = Unit {0}
AllBytes (b ∷ bs) = (b < 256) × AllBytes bs

pub to_le-from_le : (bs : List ℕ) → AllBytes bs → to_le (length bs) (from_le bs) ≡ bs
to_le-from_le [] h = refl
to_le-from_le (b ∷ bs) h =
    let lo : (b + 256 * from_le bs) % 256 ≡ b = omega (arith, h.0) in
    let hi : (b + 256 * from_le bs) / 256 ≡ from_le bs = omega (arith, h.0) in
    ap₂ ◌∷◌ lo (ap (to_le (length bs)) hi ∙ to_le-from_le bs h.1)

pub length-to_le : (n w : ℕ) → length (to_le n w) ≡ n
length-to_le zero w = refl
length-to_le (suc n) w = ap suc (length-to_le n (w / 256))

pub from_le-lt : (bs : List ℕ) → AllBytes bs → from_le bs < 256 ^ length bs
from_le-lt [] h = omega arith
from_le-lt (b ∷ bs) h = omega (arith, from_le-lt bs h.1, h.0, pow-suc 256 (length bs))

pub from_le-to_le : (n w : ℕ) → w < 256 ^ n → from_le (to_le n w) ≡ w
from_le-to_le zero w h = omega arith
from_le-to_le (suc n) w h =
    omega (arith, pow-suc 256 n, from_le-to_le n (w / 256) (omega (arith, pow-suc 256 n)))

pub AllBytes-to_le : (n w : ℕ) → AllBytes (to_le n w)
AllBytes-to_le zero w = tt
AllBytes-to_le (suc n) w = (omega arith, AllBytes-to_le n (w / 256))

pub AllBytes-append : (xs ys : List ℕ) → AllBytes xs → AllBytes ys → AllBytes (xs ++ ys)
AllBytes-append [] ys p q = q
AllBytes-append (x ∷ xs) ys p q = (p.0, AllBytes-append xs ys p.1 q)

pub AllBytes-take : (n : ℕ) (xs : List ℕ) → AllBytes xs → AllBytes (take n xs)
AllBytes-take zero xs p = tt
AllBytes-take (suc n) [] p = tt
AllBytes-take (suc n) (x ∷ xs) p = (p.0, AllBytes-take n xs p.1)

pub AllBytes-drop : (n : ℕ) (xs : List ℕ) → AllBytes xs → AllBytes (drop n xs)
AllBytes-drop zero xs p = p
AllBytes-drop (suc n) [] p = tt
AllBytes-drop (suc n) (x ∷ xs) p = AllBytes-drop n xs p.1

pub AllBytes-replicate : (n b : ℕ) → b < 256 → AllBytes (replicate n b)
AllBytes-replicate zero b h = tt
AllBytes-replicate (suc n) b h = (h, AllBytes-replicate n b h)

-- A buffer of `n` zero bytes with a text, cut at `n`, copied to its front.
abbrev pub copied : ℕ → List ℕ → List ℕ
copied n bytes = take n bytes ++ replicate (n - length (take n bytes)) 0

-- `core::str::from_utf8`: the well-formed byte sequences of the Unicode standard.
abbrev between : ℕ → ℕ → ℕ → Bool
between lo hi b = leb lo b && leb b hi

-- After a first byte: how many bytes follow, and the bounds of the next of them.
lead : ℕ → Option (ℕ × ℕ × ℕ)
lead b =
    if ltb b 0x80
    then some (0, 0, 0)
    else if between 0xc2 0xdf b
    then some (1, 0x80, 0xbf)
    else if b == 0xe0
    then some (2, 0xa0, 0xbf)
    else if b == 0xed
    then some (2, 0x80, 0x9f)
    else if between 0xe1 0xef b
    then some (2, 0x80, 0xbf)
    else if b == 0xf0
    then some (3, 0x90, 0xbf)
    else if between 0xf1 0xf3 b
    then some (3, 0x80, 0xbf)
    else if b == 0xf4
    then some (3, 0x80, 0x8f)
    else none

utf8_from : ℕ → ℕ → ℕ → List ℕ → Bool
unfolding lead
utf8_from zero lo hi [] = true
utf8_from (suc n) lo hi [] = false
utf8_from zero lo hi (b ∷ bs) = elim (lead b) [
  | none ↦ false
  | some (n, lo', hi') ↦ utf8_from n lo' hi' bs
]
utf8_from (suc n) lo hi (b ∷ bs) = elim (between lo hi b) [
  | true ↦ utf8_from n 0x80 0xbf bs
  | false ↦ false
]

unfoldable pub is_utf8 : List ℕ → Bool
unfolding utf8_from
is_utf8 bytes = utf8_from 0 0 0 bytes

abbrev pub AllAscii : List ℕ → Type 0
AllAscii [] = Unit {0}
AllAscii (b ∷ bs) = (b < 0x80) × AllAscii bs

utf8_from_ascii : (bytes : List ℕ) (lo hi : ℕ) → AllAscii bytes → utf8_from 0 lo hi bytes ≡ true
unfolding utf8_from
utf8_from_ascii [] lo hi h = refl
utf8_from_ascii (b ∷ bs) lo hi h = rw (lt→ltb b 0x80 h.0, utf8_from) (utf8_from_ascii bs 0 0 h.1)

pub is_utf8_of_ascii : (bytes : List ℕ) → AllAscii bytes → is_utf8 bytes ≡ true
unfolding is_utf8
is_utf8_of_ascii bytes h = utf8_from_ascii bytes 0 0 h

pub AllAscii-take : (n : ℕ) (xs : List ℕ) → AllAscii xs → AllAscii (take n xs)
AllAscii-take zero xs p = tt
AllAscii-take (suc n) [] p = tt
AllAscii-take (suc n) (x ∷ xs) p = (p.0, AllAscii-take n xs p.1)

pub ascii_AllBytes : (xs : List ℕ) → AllAscii xs → AllBytes xs
ascii_AllBytes [] p = tt
ascii_AllBytes (x ∷ xs) p = (omega (arith, p.0), ascii_AllBytes xs p.1)

-- The words that a buffer holds, eight bytes to a word, and the buffer that words fill.
unfoldable pub words_of : ℕ → List ℕ → List ℕ
words_of zero buf = []
words_of (suc n) buf = from_le (take 8 buf) ∷ words_of n (drop 8 buf)

unfoldable pub bytes_of : List ℕ → List ℕ
bytes_of [] = []
bytes_of (w ∷ ws) = to_le 8 w ++ bytes_of ws

pub bytes_of-words_of :
    (n : ℕ) (buf : List ℕ) → length buf ≡ n * 8 → AllBytes buf → bytes_of (words_of n buf) ≡ buf
unfolding bytes_of words_of
bytes_of-words_of zero [] e h = refl
bytes_of-words_of zero (b ∷ buf) e h = absurd (omega arith)
bytes_of-words_of (suc n) buf e h =
    ap₂ ◌++◌
      (ap (λ k. to_le k (from_le (take 8 buf))) eight
        ∙ to_le-from_le (take 8 buf) (AllBytes-take 8 buf h))
      (bytes_of-words_of n (drop 8 buf) (omega (arith, length-drop 8 buf)) (AllBytes-drop 8 buf h))
    ∙ take-append-drop 8 buf
  where
    eight : 8 ≡ length (take 8 buf)
    eight = omega (arith, length-take 8 buf)

pub length-copied : (n : ℕ) (bytes : List ℕ) → length (copied n bytes) ≡ n
length-copied n bytes = omega (
  arith,
  length-append (take n bytes) (replicate (n - length (take n bytes)) 0),
  length-replicate {A = ℕ} (n - length (take n bytes)) 0,
  length-take n bytes,
)

pub AllBytes-copied : (n : ℕ) (bytes : List ℕ) → AllBytes bytes → AllBytes (copied n bytes)
AllBytes-copied n bytes h =
    AllBytes-append (take n bytes) _ (AllBytes-take n bytes h)
      (AllBytes-replicate _ 0 (omega arith))

-- The text comes back out of a buffer that it was copied to, cut at the buffer's length.
pub take-copied :
    (n : ℕ) (bytes : List ℕ) → take (min (length bytes) n) (copied n bytes) ≡ take n bytes
take-copied n bytes = ap (λ k. take k (copied n bytes)) count ∙ take-append_exact (take n bytes) _
  where
    count : min (length bytes) n ≡ length (take n bytes)
    count = omega (arith, length-take n bytes)

abbrev invalid_text : List ℕ
invalid_text = codes "<invalid utf-8>"

-- `from_utf8(..).unwrap_or("<invalid utf-8>")`.
abbrev pub lossy_text : List ℕ → List ℕ
lossy_text bytes = if is_utf8 bytes then bytes else invalid_text
