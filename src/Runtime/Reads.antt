-- ===== src/Runtime/Reads.antt =====
-- libs/tarnos-rt/src/syscall.rs against kernel/src/arch/x86_64/syscall.rs: what a program that read a file
-- or sectors finds in its buffer.
use tarn_os.Prelude.{
  ℕ, ◌*◌, ◌≡◌, ◌≤◌, refl, sym, ap, ◌∙◌, List, Option, some, length, Bool-cases, inl, inr,
}
use tarn_os.Prelude.Int.{to_u64, to_i64, is_negative}
use tarn_os.Abi.Errors.{SyscallError, as_retval, from_retval}
use tarn_os.Kcore.CapTable.{ok, err, RightsOps}
use tarn_os.Fs.Block.{BlockDevice, sector_size}
use tarn_os.Fs.Fat.{Fat12Volume}
use tarn_os.Abi.ShortName.{unpack_short_name}
use tarn_os.Task.Process.{TrapFrame}
use tarn_os.Syscall.{Kernel, with_rax}
use tarn_os.Syscall.Range.{PageTable}
use tarn_os.Syscall.Transfer.{laid}
use tarn_os.Syscall.Device.{Attempt, done, refused, answer_frame, sys_block_read, sys_file_read}
use tarn_os.Syscall.Device.Served.{
  Served, turned_away, crashed, undelivered, delivered, SectorsOf, StartOfFile,
  sys_block_read-Served, sys_file_read-Served,
}
use tarn_os.Runtime
use tarn_os.Runtime.{block_read_regs, file_read_regs, decode}
use tarn_os.Runtime.Trip.{decode-refused}

-- `back` are the registers on return of a call that ended with an attempt.
refused-back :
    {A : Type 0} (request back : TrapFrame) (e : SyscallError) (bytes : ℕ → ℕ) (value v : A)
    → answer_frame request (refused e bytes) ≡ some back
    → decode back value ≡ ok v
    → (B : Type 0) → B
unfolding decode
refused-back request back e bytes value v answered good B =
    let same : with_rax request (to_u64 (as_retval e)) ≡ back = cc answered in
    let bad : err e ≡ ok v =
      sym (decode-refused request e value) ∙ ap (λ f. decode f value) same ∙ good in
    cc bad

decode-ok : {A : Type 0} (back : TrapFrame) (value v : A) → decode back value ≡ ok v → v ≡ value
unfolding decode
decode-ok back value v good = elim (Bool-cases (is_negative (to_i64 back.rax))) [
  | inl e ↦ let bad : err (from_retval (to_i64 back.rax)) ≡ ok v = rw e at good in cc bad
  | inr e ↦ let same : ok value ≡ ok v = rw e at good in cc same
]

-- What a program that was told of success can rely on.
pub record Got {D : Type 0} (table : PageTable) (ptr len : ℕ) (bytes : ℕ → ℕ) (attached : Option D)
    (Delivery : D → ℕ → List ℕ → D → Type 0) (request back : TrapFrame) (attempt : Attempt)
    : Type 0 where
  pub dev : D
  pub dev' : D
  pub n : ℕ
  pub src : List ℕ
  pub after : ℕ → ℕ
  pub on_disk : attached ≡ some dev
  pub from_disk : Delivery dev n src dev'
  pub fits : length src ≤ len
  pub returned : attempt ≡ done n after
  pub registers : back ≡ with_rax request n
  pub in_buffer : (a : ℕ) → after a ≡ laid table ptr src bytes a

Served-Got :
    {A D : Type 0} {table : PageTable} {Allowed : Type 0} {ptr len : ℕ} {bytes : ℕ → ℕ}
    {attached : Option D} {Delivery : D → ℕ → List ℕ → D → Type 0} {r : Attempt × Option D}
    (request back : TrapFrame) (value v : A)
    → Served table Allowed ptr len bytes attached Delivery r
    → answer_frame request r.0 ≡ some back
    → decode back value ≡ ok v
    → Got table ptr len bytes attached Delivery request back r.0
Served-Got {bytes = bytes} request back value v (turned_away e) answered good =
    refused-back request back e bytes value v answered good _
Served-Got request back value v (crashed may page low high f) answered good = cc answered
Served-Got {bytes = bytes} request back value v (undelivered may dev dev' at e) answered good =
    refused-back request back e bytes value v answered good _
Served-Got request back value v (delivered may dev dev' at n src gave short after same) answered
      good =
    record {
      dev = dev;
      dev' = dev';
      n = n;
      src = src;
      after = after;
      on_disk = at;
      from_disk = gave;
      fits = short;
      returned = refl;
      registers = cc answered;
      in_buffer = same;
    }

module _ {D : Type 0} (device : BlockDevice D) (ops : RightsOps) (read_right : ℕ)
    (table : PageTable) (k : Kernel) (core : ℕ) (regs back : TrapFrame) (bytes : ℕ → ℕ)
    (attached : Option D) where
  -- If a program's `sys_block_read` returns success, then its buffer has the sectors that the disk has from
  -- `lba` on, as many as it asked for, and no other byte of its memory changed.
  pub sys_block_read-Got :
      (cap lba buf count : ℕ)
      → let request = block_read_regs regs cap lba buf count in
        let (attempt, _) =
          sys_block_read device ops read_right table k core request bytes attached in
        answer_frame request attempt ≡ some back
        → Runtime.sys_block_read (λ f. back) regs cap lba buf count ≡ ok tt
        → Got table buf
            (count * sector_size)
            bytes
            attached
            (SectorsOf device ops read_right table lba (count * sector_size))
            request
            back
            attempt
  unfolding Runtime.sys_block_read block_read_regs
  sys_block_read-Got cap lba buf count answered good =
      let request = block_read_regs regs cap lba buf count in
      Served-Got request back tt tt
        (sys_block_read-Served device ops read_right table k core request bytes attached) answered
        good

  -- If a program's `sys_file_read` returns n, then its buffer starts with the first n bytes that `read_file`
  -- returned in the kernel for that name, n is the smaller of their number and the buffer's size, and no
  -- other byte of its memory changed.
  pub sys_file_read-Got :
      (root : Option Fat12Volume) (cap : ℕ) (name : List ℕ) (buf buf_len n : ℕ)
      → let request = file_read_regs regs cap name buf buf_len in
        let (attempt, _) =
          sys_file_read device ops read_right table k core request root bytes attached in
        answer_frame request attempt ≡ some back
        → Runtime.sys_file_read (λ f. back) regs cap name buf buf_len ≡ ok n
        → (got : Got table buf buf_len bytes attached
            (StartOfFile device ops read_right table root
              (unpack_short_name request.rsi request.rdx request.r10)
              buf_len)
            request
            back
            attempt)
          × (n ≡ got.n)
  unfolding Runtime.sys_file_read file_read_regs
  sys_file_read-Got root cap name buf buf_len n answered good =
      let request = file_read_regs regs cap name buf buf_len in
      let got =
        Served-Got request back back.rax n
          (sys_file_read-Served device ops read_right table k core request root bytes attached)
          answered good in
      (got, decode-ok back back.rax n good ∙ ap (λ f. f.rax) got.registers)
