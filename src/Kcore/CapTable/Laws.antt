-- ===== src/Kcore/CapTable/Laws.antt =====
-- What a capability table promises: a slot is found where it was put, under the rights it carries.
use tarn_os.Prelude.{
  ℕ, zero, suc, ◌+◌, ◌-◌, ◌<◌, ◌≡◌, refl, ap, ◌↔◌, ◌∙◌, inl, inr, Bool, true, false, [], ◌∷◌, ◌++◌,
  Option, none, some, leb, ◌==◌, if◌then◌else◌, length, get_elem?, set, replicate, arith,
  length-append, length-replicate, Bool-cases, leb→le,
}
use tarn_os.Abi.Errors.{bad_capability, permission_denied}
use tarn_os.Kcore.CapTable.{
  Result, ok, err, RightsOps, CapabilitySlot, CapTable, checked, grown, insert, get, lookup, iter,
}

nothing {ℓ} : (T : Type ℓ) → Option (CapabilitySlot T)
nothing T = none

module _ {ℓ} {T : Type ℓ} where
  -- A place beyond the end reads as a place that was never filled.
  entry : CapTable T → ℕ → Option (CapabilitySlot T)
  entry [] i = none
  entry (s ∷ slots) zero = s
  entry (s ∷ slots) (suc i) = entry slots i

  entry-grown : (slots : CapTable T) (n i : ℕ) → entry (slots ++ replicate n none) i ≡ entry slots i
  unfolding entry
  entry-grown [] zero i = refl
  entry-grown [] (suc n) zero = refl
  entry-grown [] (suc n) (suc i) = entry-grown [] n i
  entry-grown (s ∷ slots) n zero = refl
  entry-grown (s ∷ slots) n (suc i) = entry-grown slots n i

  entry-set :
      (slots : CapTable T) (i j : ℕ) (s : Option (CapabilitySlot T))
      → i < length slots
      → entry (set slots i s) j ≡ (if i == j then s else entry slots j)
  unfolding entry
  entry-set [] i j s h = absurd (omega arith)
  entry-set (x ∷ slots) zero zero s h = ground arith
  entry-set (x ∷ slots) zero (suc j) s h = ground arith
  entry-set (x ∷ slots) (suc i) zero s h = ground arith
  entry-set (x ∷ slots) (suc i) (suc j) s h = ground (arith, entry-set slots i j s (omega arith))

  entry-insert :
      (slots : CapTable T) (i j : ℕ) (slot : CapabilitySlot T)
      → entry (insert slots i slot) j ≡ (if i == j then some slot else entry slots j)
  unfolding insert nothing
  entry-insert slots i j slot = elim (Bool-cases (leb (length slots) i)) [
    | inl grows ↦
        rw
          (
            grows,
            entry-set (grown slots (i + 1)) i j (some slot) (grown-lt grows),
            entry-grown slots (i + 1 - length slots) j,
          )
          refl
    | inr fits ↦ rw (fits, entry-set slots i j (some slot) (ground arith)) refl
  ]
    where
      grown-lt : leb (length slots) i ≡ true → i < length (grown slots (i + 1))
      grown-lt h =
          let le = leb→le (length slots) i h in
          omega (
            arith,
            le,
            length-append slots (replicate (i + 1 - length slots) (nothing T)),
            length-replicate (i + 1 - length slots) (nothing T),
          )

  found : Option (CapabilitySlot T) → Result (CapabilitySlot T)
  found none = err bad_capability
  found (some slot) = ok slot

  get-entry : (slots : CapTable T) (i : ℕ) → get slots i ≡ found (entry slots i)
  unfolding get found entry
  get-entry [] i = refl
  get-entry (none ∷ slots) zero = refl
  get-entry (some s ∷ slots) zero = refl
  get-entry (s ∷ slots) (suc i) = get-entry slots i

  -- A slot is found where it was inserted, and every other index names what it named before, also
  -- when the table grows.
  pub get-insert :
      (slots : CapTable T) (i j : ℕ) (slot : CapabilitySlot T)
      → get (insert slots i slot) j ≡ (if i == j then ok slot else get slots j)
  get-insert slots i j slot =
      rw (get-entry (insert slots i slot) j, entry-insert slots i j slot, get-entry slots j)
        (split (i == j))
    where
      split :
          (t : Bool)
          → found (if t then some slot else entry slots j)
            ≡ (if t then ok slot else found (entry slots j))
      split true = unfold found in refl
      split false = refl

  forward :
      (slots : CapTable T) (slot : CapabilitySlot T)
      → ((k : ℕ) × (get_elem? (iter slots) k ≡ some slot))
      → (i : ℕ) × (get slots i ≡ ok slot)
  unfolding iter get
  forward [] slot (k, e) = cc
  forward (none ∷ slots) slot (k, e) = let (i, h) = forward slots slot (k, e) in (suc i, h)
  forward (some s ∷ slots) slot (zero, e) = (0, cc)
  forward (some s ∷ slots) slot (suc k, e) = let (i, h) = forward slots slot (k, e) in (suc i, h)

  backward :
      (slots : CapTable T) (slot : CapabilitySlot T) (i : ℕ)
      → get slots i ≡ ok slot
      → (k : ℕ) × (get_elem? (iter slots) k ≡ some slot)
  unfolding iter get
  backward [] slot i e = cc
  backward (none ∷ slots) slot zero e = cc
  backward (none ∷ slots) slot (suc i) e = backward slots slot i e
  backward (some s ∷ slots) slot zero e = (0, cc)
  backward (some s ∷ slots) slot (suc i) e = let (k, h) = backward slots slot i e in (suc k, h)

  -- `lookup` gives the inserted slot out for the rights that it carries and no others, and leaves
  -- every other index alone.
  pub lookup-insert :
      (rights : RightsOps) (slots : CapTable T) (i j : ℕ) (slot : CapabilitySlot T) (required : ℕ)
      → lookup rights (insert slots i slot) j required ≡ (
          if i == j
          then if rights.contains slot.rights required then ok slot else err permission_denied
          else lookup rights slots j required)
  unfolding lookup
  lookup-insert rights slots i j slot required =
      ap (checked rights required) (get-insert slots i j slot) ∙ split (i == j)
    where
      split :
          (t : Bool)
          → checked rights required (if t then ok slot else get slots j) ≡ (
              if t
              then if rights.contains slot.rights required then ok slot else err permission_denied
              else checked rights required (get slots j))
      split true = refl
      split false = refl

  -- What `iter` gives out is exactly what `get` can find.
  pub iter-get :
      (slots : CapTable T) (slot : CapabilitySlot T)
      → ((k : ℕ) × (get_elem? (iter slots) k ≡ some slot)) ↔ ((i : ℕ) × (get slots i ≡ ok slot))
  iter-get slots slot = (forward slots slot, λ (i, e). backward slots slot i e)
