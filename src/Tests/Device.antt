-- ===== src/Tests/Device.antt =====
-- kernel/src/arch/x86_64/syscall.rs: a read of a disk's sectors and one of a file.
use tarn_os.Prelude.{ℕ, ◌*◌, ◌≡◌, refl, true, [], ◌∷◌, some, none, replicate, ◌==◌}
use tarn_os.Abi.ShortName.{unpack_short_name, pack_short_name}
use tarn_os.Kcore.CapTable
use tarn_os.Kcore.CapTable.{RightsOps, CapabilitySlot}
use tarn_os.Fs.Block.{sector_size}
use tarn_os.Task.Process.{KernelObjectRef, ProcessState, TrapFrame}
use tarn_os.Task.Pid
use tarn_os.Task.Scheduler
use tarn_os.Task.Scheduler.{Scheduler, occupied_mut}
use tarn_os.Syscall.{Kernel, current_process}
use tarn_os.Syscall.Range.{PageTable, validate_write_range, check_pages}
use tarn_os.Syscall.Transfer.{copy_into_user_range}
use tarn_os.Syscall.Device.{
  done, is_block_device, is_fs_root, object_error, sys_block_read, sys_file_read,
}
use tarn_os.Syscall.Device.Served.{
  Holds, Served, SectorsOf, StartOfFile, sys_block_read-Served, sys_file_read-Served,
}
use tarn_os.Fs.Fat.{
  fat12_entry, cluster_chain, chain_from, next_cluster, scan_sector, to_83_name, is_ascii,
  rsplit_once_dot,
}
use tarn_os.Fs.Fat.Read.{
  read_file, find_dir_entry, find_from, read_bytes, read_fat_table, read_run, read_clusters,
}
use tarn_os.Prelude.Bytes.{is_utf8}
use tarn_os.Kcore.CapTable.{ok}
use tarn_os.Syscall.Device.{answer_frame}
use tarn_os.Runtime
use tarn_os.Runtime.{file_read_regs}
use tarn_os.Runtime.Reads.{Got, sys_file_read-Got}
use tarn_os.Tests.Fs.{readme, volume, disk, disk_device}
use tarn_os.Tests.Task.{blank, process_of, parent_pid, family}

abbrev ops : RightsOps
ops = record { contains = λ held required. held == required }

abbrev read_right : ℕ
read_right = 4

abbrev slot_for : KernelObjectRef → CapabilitySlot KernelObjectRef
slot_for object = record { object = object; rights = read_right }

-- The process of core 0 may read the disk and the root of the file system.
abbrev kernel : Kernel
kernel = record {
  scheduler = record family {
    processes =
        Scheduler.occupied (record (process_of parent_pid ProcessState.running none) {
          cap_table =
              some (slot_for KernelObjectRef.block_device)
              ∷ some (slot_for KernelObjectRef.fs_root)
              ∷ [];
        })
        ∷ replicate 15 Scheduler.empty;
  };
  endpoints = [];
  wakes = [];
}

abbrev mapped : PageTable
mapped = record {
  canonical = λ a. true;
  translate = λ a. some 7;
  contains_required = λ bits. bits == 7;
}

-- One sector from the second on, to 5000.
abbrev block_frame : TrapFrame
block_frame = record blank { rdi = 0; rsi = 1; rdx = 5000; r10 = 1 }

-- The file `r.t`, to 5000.
abbrev file_frame : TrapFrame
file_frame = record blank { rdi = 1; rsi = 0x742e72; rdx = 0; r10 = 3; r8 = 5000; r9 = 2 }

abbrev memory : ℕ → ℕ
memory a = 0

sys_block_read-Served_example :
    Served mapped
      (Holds ops read_right is_block_device (current_process kernel.scheduler 0) 0)
      5000
      (1 * sector_size)
      memory
      (some disk)
      (SectorsOf disk_device ops read_right mapped 1 (1 * sector_size))
      (sys_block_read disk_device ops read_right mapped kernel 0 block_frame memory (some disk))
sys_block_read-Served_example =
    sys_block_read-Served disk_device ops read_right mapped kernel 0 block_frame memory (some disk)

sys_file_read-Served_example :
    Served mapped
      (Holds ops read_right is_fs_root (current_process kernel.scheduler 0) 1)
      5000
      2
      memory
      (some disk)
      (StartOfFile disk_device ops read_right mapped
        (some volume)
        (unpack_short_name file_frame.rsi file_frame.rdx 3)
        2)
      (sys_file_read disk_device ops read_right mapped kernel 0 file_frame
        (some volume)
        memory
        (some disk))
sys_file_read-Served_example =
    sys_file_read-Served disk_device ops read_right mapped kernel 0 file_frame (some volume) memory
      (some disk)

-- The call with the right answers 0 and leaves the device as it is.
reads_sector :
    (after : ℕ → ℕ) × (sys_block_read disk_device ops read_right mapped kernel 0 block_frame memory
        (some disk)
      ≡ (done 0 after, some disk))
unfolding sys_block_read object_error current_process occupied_mut Pid.index Pid.generation
    CapTable.lookup CapTable.get validate_write_range check_pages copy_into_user_range
reads_sector = (_, refl)

-- The file has three bytes, and the buffer has two.
abbrev request : TrapFrame
request = file_read_regs blank 1 readme 5000 2

abbrev back : TrapFrame
back = record request { rax = 2 }

file_answered :
    answer_frame request
      (sys_file_read disk_device ops read_right mapped kernel 0 request
        (some volume)
        memory
        (some disk)).0
    ≡ some back
unfolding sys_file_read object_error current_process occupied_mut Pid.index Pid.generation
    CapTable.lookup CapTable.get validate_write_range check_pages copy_into_user_range
    file_read_regs pack_short_name unpack_short_name is_utf8 read_file to_83_name rsplit_once_dot
    is_ascii find_dir_entry find_from read_bytes scan_sector read_fat_table read_run cluster_chain
    chain_from next_cluster fat12_entry read_clusters
file_answered = refl

file_returned : Runtime.sys_file_read (λ f. back) blank 1 readme 5000 2 ≡ ok 2
unfolding Runtime.sys_file_read
file_returned = refl

sys_file_read-Got_example :
    (got : Got mapped 5000 2 memory
      (some disk)
      (StartOfFile disk_device ops read_right mapped
        (some volume)
        (unpack_short_name request.rsi request.rdx request.r10)
        2)
      request
      back
      (sys_file_read disk_device ops read_right mapped kernel 0 request
        (some volume)
        memory
        (some disk)).0)
    × (2 ≡ got.n)
sys_file_read-Got_example =
    sys_file_read-Got disk_device ops read_right mapped kernel 0 blank back memory (some disk)
      (some volume) 1 readme 5000 2 2 file_answered file_returned
