-- ===== src/Kcore/CapTable.antt =====
-- libs/tarnos-kcore/src/captable.rs: a process's sparse array of capability slots. A `CapIndex` is
-- its number; `get` and `lookup` return the slot that the reference points to.
pub mod Laws
use tarn_os.Prelude.{
  ℕ, ◌+◌, ◌-◌, ◌≡◌, Bool, true, List, [], ◌∷◌, ◌++◌, Option, none, some, leb, if◌then◌else◌, length,
  get_elem?, set, replicate,
}
use tarn_os.Abi.Errors.{SyscallError, bad_capability, permission_denied}

pub data Result {ℓ} (A : Type ℓ) : Type ℓ where
  ok : A → Result A
  err : SyscallError → Result A

-- `Rights` is a set of flags of the crate bitflags, in a `u8`; `contains` is the crate's.
pub record RightsOps : Type 0 where
  pub contains : ℕ → ℕ → Bool

pub record CapabilitySlot {ℓ} (T : Type ℓ) : Type ℓ where
  pub object : T
  pub rights : ℕ

-- `slots` of `CapTable<T>`.
abbrev pub CapTable {ℓ} : Type ℓ → Type ℓ
CapTable T = List (Option (CapabilitySlot T))

module _ {ℓ} {T : Type ℓ} where
  unfoldable pub new : CapTable T
  new = []

  -- `resize_with(n, || None)` to a greater length.
  abbrev pub grown : CapTable T → ℕ → CapTable T
  grown slots n = slots ++ replicate (n - length slots) none

  unfoldable pub insert : CapTable T → ℕ → CapabilitySlot T → CapTable T
  insert slots i slot =
      let sized = if leb (length slots) i then grown slots (i + 1) else slots in
      set sized i (some slot)

  unfoldable pub get : CapTable T → ℕ → Result (CapabilitySlot T)
  get slots i = elim (get_elem? slots i) [
    | none ↦ err bad_capability
    | some entry ↦ elim entry [ none ↦ err bad_capability | some slot ↦ ok slot ]
  ]

  -- What `lookup` does with the answer of `get`.
  abbrev pub checked : RightsOps → ℕ → Result (CapabilitySlot T) → Result (CapabilitySlot T)
  checked rights required (err e) = err e
  checked rights required (ok slot) =
      if rights.contains slot.rights required then ok slot else err permission_denied

  unfoldable pub lookup : RightsOps → CapTable T → ℕ → ℕ → Result (CapabilitySlot T)
  lookup rights slots i required = checked rights required (get slots i)

  unfoldable pub iter : CapTable T → List (CapabilitySlot T)
  iter [] = []
  iter (none ∷ slots) = iter slots
  iter (some slot ∷ slots) = slot ∷ iter slots
