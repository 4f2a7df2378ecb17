-- ===== src/Fs/Fat/Name.antt =====
-- `to_83_name`: the form of a name in a directory entry.
use tarn_os.Prelude.{
  ℕ, suc, ◌-◌, ◌≤◌, ◌≡◌, refl, ap, ap₂, ◌∙◌, Bool, true, false, not, ◌&&◌, List, [], ◌∷◌, ◌++◌, map,
  Option, none, some, arith, length, length-append, length-replicate, leb, ◌==◌, if◌then◌else◌,
  replicate,
}
use tarn_os.Fs.Fat.{
  dot_or, rsplit_once_dot, to_ascii_uppercase, is_ascii, padded, parts_or, to_83_name,
}

-- No byte is a dot.
abbrev pub no_dot : List ℕ → Bool
no_dot [] = true
no_dot (c ∷ cs) = not (c == b'.') && no_dot cs

abbrev upper : List ℕ → List ℕ
upper = map to_ascii_uppercase

length-upper : (xs : List ℕ) → length (upper xs) ≡ length xs
length-upper [] = refl
length-upper (x ∷ xs) = ap suc (length-upper xs)

length-padded : (n : ℕ) (text : List ℕ) → length text ≤ n → length (padded n text) ≡ n
length-padded n text h = omega (
  arith,
  length-append (upper text) (replicate (n - length text) b' '),
  length-upper text,
  length-replicate {A = ℕ} (n - length text) b' ',
)

-- A packed name has 11 bytes.
pub length-to_83_name : (name out : List ℕ) → to_83_name name ≡ some out → length out ≡ 11
unfolding to_83_name
length-to_83_name name out h =
    ground (
      arith,
      length-append (padded 8 base) (padded 3 ext),
      length-padded 8 base,
      length-padded 3 ext,
    )
  where
    base : List ℕ
    base = (parts_or name (rsplit_once_dot name)).0

    ext : List ℕ
    ext = (parts_or name (rsplit_once_dot name)).1

upper_once : (c : ℕ) → to_ascii_uppercase (to_ascii_uppercase c) ≡ to_ascii_uppercase c
upper_once c = ground arith

upper_dot : (c : ℕ) → (to_ascii_uppercase c == b'.') ≡ (c == b'.')
upper_dot c = ground arith

abbrev upper_parts : Option (List ℕ × List ℕ) → Option (List ℕ × List ℕ)
upper_parts none = none
upper_parts (some (b, e)) = some (upper b, upper e)

dot_or-upper :
    (c : ℕ) (cs : List ℕ) (r : Option (List ℕ × List ℕ))
    → dot_or (to_ascii_uppercase c) (upper cs) (upper_parts r) ≡ upper_parts (dot_or c cs r)
dot_or-upper c cs (some (b, e)) = refl
dot_or-upper c cs none = rw (upper_dot c) (split (c == b'.'))
  where
    split :
        (t : Bool)
        → (if t then some ([], upper cs) else none)
          ≡ upper_parts (if t then some ([], cs) else none)
    split true = refl
    split false = refl

rsplit_once_dot-upper :
    (cs : List ℕ) → rsplit_once_dot (upper cs) ≡ upper_parts (rsplit_once_dot cs)
unfolding rsplit_once_dot
rsplit_once_dot-upper [] = refl
rsplit_once_dot-upper (c ∷ cs) =
    ap (dot_or (to_ascii_uppercase c) (upper cs)) (rsplit_once_dot-upper cs)
    ∙ dot_or-upper c cs (rsplit_once_dot cs)

is_ascii-upper : (cs : List ℕ) → is_ascii (upper cs) ≡ is_ascii cs
unfolding is_ascii
is_ascii-upper [] = refl
is_ascii-upper (c ∷ cs) = ap₂ ◌&&◌ (ground arith) (is_ascii-upper cs)

upper-upper : (xs : List ℕ) → upper (upper xs) ≡ upper xs
upper-upper [] = refl
upper-upper (x ∷ xs) = ap₂ ◌∷◌ (upper_once x) (upper-upper xs)

parts_or-upper :
    (name : List ℕ) (r : Option (List ℕ × List ℕ))
    → parts_or (upper name) (upper_parts r) ≡ (upper (parts_or name r).0, upper (parts_or name r).1)
parts_or-upper name none = refl
parts_or-upper name (some (b, e)) = refl

-- Names that differ only in the case of ASCII letters have one packed form.
pub to_83_name-upper : (name : List ℕ) → to_83_name (map to_ascii_uppercase name) ≡ to_83_name name
unfolding to_83_name
to_83_name-upper name =
    let parts = parts_or name (rsplit_once_dot name) in
    rw (
      rsplit_once_dot-upper name,
      parts_or-upper name (rsplit_once_dot name),
      length-upper parts.0,
      length-upper parts.1,
      is_ascii-upper name,
      upper-upper parts.0,
      upper-upper parts.1,
    )

rsplit_once_dot-none : (ext : List ℕ) → no_dot ext ≡ true → rsplit_once_dot ext ≡ none
unfolding rsplit_once_dot
rsplit_once_dot-none [] h = refl
rsplit_once_dot-none (c ∷ cs) h =
    ap (dot_or c cs) (rsplit_once_dot-none cs (ground arith)) ∙ ground arith

rsplit_once_dot-append :
    (base ext : List ℕ)
    → no_dot ext ≡ true
    → rsplit_once_dot (base ++ b'.' ∷ ext) ≡ some (base, ext)
unfolding rsplit_once_dot
rsplit_once_dot-append [] ext h = ap (dot_or b'.' ext) (rsplit_once_dot-none ext h)
rsplit_once_dot-append (c ∷ base) ext h =
    ap (dot_or c (base ++ b'.' ∷ ext)) (rsplit_once_dot-append base ext h)

is_ascii-append : (xs ys : List ℕ) → is_ascii (xs ++ ys) ≡ (is_ascii xs && is_ascii ys)
unfolding is_ascii
is_ascii-append [] ys = refl
is_ascii-append (x ∷ xs) ys = ground (arith, is_ascii-append xs ys)

-- Of the names with a dot, split at the last one, `to_83_name` accepts exactly those with an ASCII
-- base of 1 to 8 bytes and an ASCII extension of at most 3, and packs base and extension in
-- capitals, each filled up with spaces.
pub to_83_name_parts :
    (base ext : List ℕ)
    → no_dot ext ≡ true
    → to_83_name (base ++ b'.' ∷ ext) ≡ (
        if leb 1 (length base)
          && leb (length base) 8
          && leb (length ext) 3
          && is_ascii base
          && is_ascii ext
        then some (padded 8 base ++ padded 3 ext)
        else none)
unfolding to_83_name is_ascii
to_83_name_parts base ext h =
    rw (rsplit_once_dot-append base ext h, is_ascii-append base (b'.' ∷ ext)) (ground arith)
