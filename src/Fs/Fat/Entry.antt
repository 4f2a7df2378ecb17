-- ===== src/Fs/Fat/Entry.antt =====
-- `fat12_entry` against the layout of a FAT12 table: two entries of 12 bits in three bytes.
use tarn_os.Prelude.{
  ℕ, zero, suc, ◌+◌, ◌*◌, ◌/◌, ◌%◌, ◌<◌, ◌≡◌, ◌∙◌, List, [], ◌∷◌, arith, length, get_or, leb,
  if◌then◌else◌,
}
use tarn_os.Fs.Fat.{ok, err, corrupt_fat, fat12_entry}

-- A table of pairs of entries: the first entry has the first byte and the low half of the second.
abbrev pub table : List (ℕ × ℕ) → List ℕ
table [] = []
table ((a, b) ∷ pairs) = a % 256 ∷ (a / 256 + 16 * (b % 16)) ∷ b / 16 ∷ table pairs

abbrev pub entries : List (ℕ × ℕ) → List ℕ
entries [] = []
entries ((a, b) ∷ pairs) = a ∷ b ∷ entries pairs

abbrev pub All12 : List (ℕ × ℕ) → Type 0
All12 [] = Unit {0}
All12 ((a, b) ∷ pairs) = (a < 4096) × (b < 4096) × All12 pairs

fat12_entry_shift :
    (x y z k : ℕ) (fat : List ℕ) → fat12_entry (x ∷ y ∷ z ∷ fat) (suc (suc k)) ≡ fat12_entry fat k
unfolding fat12_entry
fat12_entry_shift x y z k fat =
    let offset : suc (suc k) * 3 / 2 ≡ suc (suc (suc (k * 3 / 2))) = omega arith in
    let after : suc (suc (suc (k * 3 / 2))) + 1 ≡ suc (suc (suc (k * 3 / 2 + 1))) = omega arith in
    let parity : suc (suc k) % 2 ≡ k % 2 = omega arith in rw (offset, after, parity) (ground arith)

-- Every entry of a table is read back, and an entry beyond it is refused.
pub fat12_entry-table :
    (pairs : List (ℕ × ℕ)) (k : ℕ)
    → All12 pairs
    → fat12_entry (table pairs) k ≡ (
        if leb (length (entries pairs)) k then err corrupt_fat else ok (get_or (entries pairs) k 0))
unfolding fat12_entry
fat12_entry-table [] k h = ground arith
fat12_entry-table ((a, b) ∷ pairs) zero h = ground arith
fat12_entry-table ((a, b) ∷ pairs) (suc zero) h = ground arith
fat12_entry-table ((a, b) ∷ pairs) (suc (suc k)) h =
    fat12_entry_shift (a % 256) (a / 256 + 16 * (b % 16)) (b / 16) k (table pairs)
    ∙ ground (arith, fat12_entry-table pairs k h.2)
