-- ===== src/Port/Ide.antt =====
-- The disk driver kernel/ide.c. `polls` bounds the rounds of each `wait`.
pub mod Registers
pub mod Disk
pub mod Obedient
use myos_git.Prelude.{ℕ, zero, suc, ◌+◌, ◌/◌, ◌%◌, ◌^◌, Option, some, bit_and, bit_or}
use myos_git.Port.{Device, Machine, outb, read_port, insw, outsw, wait, ◌>>=◌}

-- The registers of a command with the drive's bits: the sectors, the address and the command.
unfoldable pub start_command : ℕ → ℕ → ℕ → ℕ → Machine → Machine
start_command drive lba count command m = outb 0x1f7 command (
    outb 0x1f6 (bit_or drive (bit_and (lba / 2 ^ 24) 0x0f)) (
      outb 0x1f5 (lba / 2 ^ 16)
        (outb 0x1f4 (lba / 2 ^ 8) (outb 0x1f3 lba (outb 0x1f2 count (outb 0x1f1 0 m))))))

-- Four reads of the data register.
unfoldable pub drain : Machine → Machine
drain m = read_port 0x1f0 (read_port 0x1f0 (read_port 0x1f0 (read_port 0x1f0 m)))

-- The loop of `readblk`.
unfoldable pub read_sectors : Device → ℕ → ℕ → ℕ → Machine → Option Machine
unfolding drain
read_sectors d polls zero dest m = some m
read_sectors d polls (suc count) dest m = wait d polls m >>= λ a.
    wait d polls (drain (insw d 0x1f0 dest a)) >>= λ b. read_sectors d polls count (dest + 512) b

pub readblk : Device → ℕ → ℕ → ℕ → ℕ → Machine → Option Machine
unfolding start_command read_sectors
readblk d polls dest lba count m =
    read_sectors d polls count dest (start_command 0xf0 lba count 0x20 m)

-- The loop of `writeblk`.
unfoldable pub write_sectors : Device → ℕ → ℕ → ℕ → Machine → Option Machine
unfolding drain
write_sectors d polls zero buf m = some m
write_sectors d polls (suc count) buf m = wait d polls m >>= λ a.
    wait d polls (drain (outsw 0x1f0 buf a)) >>= λ b. write_sectors d polls count (buf + 512) b

-- `writeblk` writes the drive's register first.
start_write : ℕ → ℕ → Machine → Machine
start_write lba count m = outb 0x1f7 0x30 (
    outb 0x1f5 (lba / 2 ^ 16) (
      outb 0x1f4 (lba / 2 ^ 8) (
        outb 0x1f3 lba (
          outb 0x1f2 count
            (outb 0x1f1 0 (outb 0x1f6 (bit_or 0xf0 (bit_and (lba / 2 ^ 24) 0x0f)) m))))))

pub writeblk : Device → ℕ → ℕ → ℕ → ℕ → Machine → Option Machine
unfolding start_write write_sectors
writeblk d polls buf lba count m = write_sectors d polls count buf (start_write lba count m)
