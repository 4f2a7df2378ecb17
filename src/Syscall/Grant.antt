-- ===== src/Syscall/Grant.antt =====
-- No grant makes authority: what a process may do after `SYS_GRANT`, some process could do before.
use tarn_os.Prelude.{
  ℕ, zero, suc, ◌%◌, ◌^◌, ◌≡◌, refl, sym, subst, ap, ◌∙◌, Bool, true, false, not, ◌||◌, List, [],
  ◌∷◌, none, some, ◌==◌, if◌then◌else◌, get_or, set, Bool-cases, Option-cases, inl, inr, ◌⊎◌,
}
use tarn_os.Abi.Errors.{SyscallError, bad_capability, permission_denied, invalid_target}
use tarn_os.Kcore.CapTable
use tarn_os.Kcore.CapTable.{Result, ok, err, RightsOps, CapabilitySlot, CapTable}
use tarn_os.Kcore.CapTable.Laws.{get-insert}
use tarn_os.Task.Pid
use tarn_os.Task.Pid.{Pid}
use tarn_os.Task.Process.{TrapFrame, KernelObjectRef, Process}
use tarn_os.Task.Scheduler
use tarn_os.Task.Scheduler.{
  Scheduler, slot_at, put_slot, current_at, occupied_mut, is_pid, is_suspended,
}
use tarn_os.Task.Scheduler.Wakeups.{occupied_mut-some}
use tarn_os.Syscall.{
  Kernel, Flags, Outcome, answers, refuses, with_process, current_process, offered, granted,
  answer_grant, grant_to, sys_grant, cap_index,
}

-- Some process of the table has a capability for the object of `c` with at least the rights of `c`.
pub record Held (rights : RightsOps) (s : Scheduler) (c : CapabilitySlot KernelObjectRef)
    : Type 0 where
  pub place : ℕ
  pub holder : Process
  pub index : ℕ
  pub own : CapabilitySlot KernelObjectRef
  pub in_table : slot_at s place ≡ Scheduler.occupied holder
  pub has : CapTable.get holder.cap_table index ≡ ok own
  pub same_object : own.object ≡ c.object
  pub covers : rights.contains own.rights c.rights ≡ true

written :
    (xs : List Scheduler.Slot) (t i : ℕ) (v : Scheduler.Slot) (q : Process)
    → get_or (set xs t v) i Scheduler.empty ≡ Scheduler.occupied q
    → (v ≡ Scheduler.occupied q) ⊎ (get_or xs i Scheduler.empty ≡ Scheduler.occupied q)
written [] t i v q e = inr e
written (x ∷ xs) zero zero v q e = inl e
written (x ∷ xs) zero (suc i) v q e = inr e
written (x ∷ xs) (suc t) zero v q e = inr e
written (x ∷ xs) (suc t) (suc i) v q e = written xs t i v q e

chosen :
    (b : Bool) (new c : CapabilitySlot KernelObjectRef)
    (old : Result (CapabilitySlot KernelObjectRef))
    → (if b then ok new else old) ≡ ok c
    → (new ≡ c) ⊎ (old ≡ ok c)
chosen true new c old e = inl (cc e)
chosen false new c old e = inr e

current-slot :
    (s : Scheduler) (core : ℕ) (p : Process)
    → current_process s core ≡ some p
    → (i : ℕ) × (slot_at s i ≡ Scheduler.occupied p)
unfolding current_process
current-slot s core p e = elim (Option-cases (current_at s core)) [
  | inl none_there ↦ let bad : none ≡ some p = rw (none_there, current_process) at e in cc bad
  | inr (pid, there) ↦
      let found : occupied_mut s pid ≡ some p = rw (there, current_process) at e in
      (Pid.index pid, (occupied_mut-some s pid p found).1)
]

module _ (rights : RightsOps) (covers_itself : (r : ℕ) → rights.contains r r ≡ true) where
  own-Held :
      (s : Scheduler) (i j : ℕ) (p : Process) (c : CapabilitySlot KernelObjectRef)
      → slot_at s i ≡ Scheduler.occupied p
      → CapTable.get p.cap_table j ≡ ok c
      → Held rights s c
  own-Held s i j p c e h = record {
    place = i;
    holder = p;
    index = j;
    own = c;
    in_table = e;
    has = h;
    same_object = refl;
    covers = covers_itself c.rights;
  }

  -- What every capability of every process after a step was before it.
  NoNew : Scheduler → Scheduler → Type 0
  NoNew s t =
      (i j : ℕ) (p : Process) (c : CapabilitySlot KernelObjectRef)
      → slot_at t i ≡ Scheduler.occupied p
      → CapTable.get p.cap_table j ≡ ok c
      → Held rights s c

  put-NoNew :
      (s : Scheduler) (i : ℕ) (q : Process)
      → ((j : ℕ) (c : CapabilitySlot KernelObjectRef)
          → CapTable.get q.cap_table j ≡ ok c
          → Held rights s c)
      → NoNew s (put_slot s i (Scheduler.occupied q))
  unfolding NoNew
  put-NoNew s i q h k j p c e has = elim (written s.processes i k (Scheduler.occupied q) p e) [
    | inl same ↦ let eq : q ≡ p = cc same in h j c (ap (λ x. CapTable.get x.cap_table j) eq ∙ has)
    | inr old ↦ own-Held s k j p c old has
  ]

  granted-NoNew :
      (s : Scheduler) (target caller : Pid) (index : ℕ) (object : KernelObjectRef) (r : ℕ)
      (child : Process)
      → occupied_mut s target ≡ some child
      → Held rights s (record { object = object; rights = r })
      → NoNew s (
          put_slot s
            (Pid.index target)
            (Scheduler.occupied (granted caller index object r child).0))
  granted-NoNew s target caller index object r child e held =
      let (_, slot) = occupied_mut-some s target child e in
      elim (Bool-cases (not (is_pid caller child.parent) || not (is_suspended child.state))) [
        | inl refused ↦ rw refused (
            put-NoNew s (Pid.index target) child
              (λ j c has. own-Held s (Pid.index target) j child c slot has))
        | inr allowed ↦
            let new : CapabilitySlot KernelObjectRef = record { object = object; rights = r } in
            rw allowed (
              put-NoNew s (Pid.index target)
                (record child { cap_table = CapTable.insert child.cap_table index new })
                (λ j c has.
                  elim (chosen (index == j) new c (CapTable.get child.cap_table j)
                    (sym (get-insert child.cap_table index j new) ∙ has)) [
                      | inl same ↦ subst (Held rights s) same held
                      | inr old ↦ own-Held s (Pid.index target) j child c slot old
                    ]))
      ]

  same-NoNew : (s : Scheduler) → NoNew s s
  unfolding NoNew
  same-NoNew s i j p c e has = own-Held s i j p c e has

module _ (flags : Flags) (covers_itself : (r : ℕ) → flags.ops.contains r r ≡ true) (k : Kernel)
    (frame : TrapFrame) where
  -- Every answer to a grant leaves no new authority.
  Safe : Outcome → Type 0
  Safe o =
      (f : TrapFrame) (l : Kernel)
      → o ≡ answers f l
      → NoNew flags.ops covers_itself k.scheduler l.scheduler

  answers-Safe :
      (f : TrapFrame) (l : Kernel)
      → NoNew flags.ops covers_itself k.scheduler l.scheduler
      → Safe (answers f l)
  unfolding Safe
  answers-Safe f l h f' l' e =
      let same : l ≡ l' = cc e in
      subst (λ x. NoNew flags.ops covers_itself k.scheduler x.scheduler) same h

  refuses-Safe : (e : SyscallError) → Safe (refuses frame e k)
  refuses-Safe e = answers-Safe _ k (same-NoNew flags.ops covers_itself k.scheduler)

  answer_grant-Safe :
      (r : Result (Unit {0})) (s : Scheduler)
      → NoNew flags.ops covers_itself k.scheduler s
      → Safe (answer_grant frame k (some (r, s)))
  answer_grant-Safe (ok done) s h = answers-Safe _ (record k { scheduler = s }) h
  answer_grant-Safe (err e) s h = answers-Safe _ (record k { scheduler = s }) h

  grant_to-Safe :
      (requested : ℕ) (object : KernelObjectRef) (caller : Pid)
      → Held flags.ops k.scheduler (record { object = object; rights = requested })
      → Safe (grant_to k frame requested (ok (object, caller)))
  unfolding with_process
  grant_to-Safe requested object caller held =
      elim (Option-cases (occupied_mut k.scheduler frame.rdi)) [
        | inl e ↦ rw (e, with_process) (refuses-Safe invalid_target)
        | inr (child, e) ↦
            rw (e, with_process)
              (answer_grant-Safe (granted caller (cap_index frame.rdx) object requested child).1 _ (
                granted-NoNew flags.ops covers_itself k.scheduler frame.rdi caller
                  (cap_index frame.rdx) object requested child e held))
      ]

  offered-Safe :
      (requested i : ℕ) (p : Process) (r : Result (CapabilitySlot KernelObjectRef))
      → slot_at k.scheduler i ≡ Scheduler.occupied p
      → CapTable.get p.cap_table (cap_index frame.rsi) ≡ r
      → Safe (grant_to k frame requested (offered flags.ops requested p.pid r))
  offered-Safe requested i p (err e) slot has = refuses-Safe e
  offered-Safe requested i p (ok own) slot has =
      elim (Bool-cases (flags.ops.contains own.rights requested)) [
        | inl e ↦ rw e (
            grant_to-Safe requested own.object p.pid (record {
              place = i;
              holder = p;
              index = cap_index frame.rsi;
              own = own;
              in_table = slot;
              has = has;
              same_object = refl;
              covers = e;
            }))
        | inr e ↦ rw e (refuses-Safe permission_denied)
      ]

  grant-Safe : (core : ℕ) → Safe (sys_grant flags k core frame)
  unfolding sys_grant
  grant-Safe core =
      let requested = flags.truncate (frame.r10 % 2 ^ 8) in
      elim (Option-cases (current_process k.scheduler core)) [
        | inl e ↦ rw e (refuses-Safe bad_capability)
        | inr (p, e) ↦
            let (i, slot) = current-slot k.scheduler core p e in
            rw e (
              offered-Safe requested i p (CapTable.get p.cap_table (cap_index frame.rsi)) slot refl)
      ]

-- After `SYS_GRANT`, each capability of each process is covered by one that a process had before the call:
-- the same object, with at least its rights. A set of rights contains itself.
pub sys_grant-Held :
    (flags : Flags) (k l : Kernel) (core : ℕ) (frame f : TrapFrame) (i j : ℕ) (p : Process)
    (c : CapabilitySlot KernelObjectRef)
    → ((r : ℕ) → flags.ops.contains r r ≡ true)
    → sys_grant flags k core frame ≡ answers f l
    → slot_at l.scheduler i ≡ Scheduler.occupied p
    → CapTable.get p.cap_table j ≡ ok c
    → Held flags.ops k.scheduler c
unfolding Safe NoNew
sys_grant-Held flags k l core frame f i j p c covers_itself e =
    grant-Safe flags covers_itself k frame core f l e i j p c
