-- ===== src/Disk/Registers.antt =====
-- The registers of a drive, each of which keeps the value before, and what `cmd_out` of
-- os/driver/disk.c writes to them.
use kalinote_os.Base.{ℕ, ◌+◌, ◌*◌, ◌%◌, ◌^◌, ◌≡◌, List, [], ◌∷◌, arith, refl, ◌==◌, if◌then◌else◌}
use kalinote_os.Disk.{
  Event, out, send, receive, device, sector_cnt, sector_low, sector_mid, sector_high, lba48_outs,
}

-- A write puts the value of the register behind the new one.
abbrev pub latch : List Event → (ℕ → ℕ × ℕ) → ℕ → ℕ × ℕ
latch [] r = r
latch (out port value ∷ es) r = latch es (λ q. if q == port then (value, (r port).0) else r q)
latch (send buffer ∷ es) r = latch es r
latch (receive buffer ∷ es) r = latch es r

-- The address and the count that a command with 48 bits takes from the registers.
abbrev pub lba48_of : (ℕ → ℕ × ℕ) → ℕ
lba48_of r =
    (r sector_low).0
    + 2 ^ 8 * (r sector_mid).0
    + 2 ^ 16 * (r sector_high).0
    + 2 ^ 24 * (r sector_low).1
    + 2 ^ 32 * (r sector_mid).1
    + 2 ^ 40 * (r sector_high).1

abbrev pub count48_of : (ℕ → ℕ × ℕ) → ℕ
count48_of r = (r sector_cnt).0 + 2 ^ 8 * (r sector_cnt).1

-- Whatever the registers hold, after the writes in front of a read or a write of sectors a drive with
-- two values in each register takes the LBA from them, 48 bits of it, and the count, 16 bits of it,
-- with the mode for an LBA in the device register.
pub lba48_outs-lba48_of :
    (count lba : ℕ) (r : ℕ → ℕ × ℕ)
    → (lba48_of (latch (lba48_outs count lba) r) ≡ lba % 2 ^ 48)
      × (count48_of (latch (lba48_outs count lba) r) ≡ count % 2 ^ 16)
      × ((latch (lba48_outs count lba) r device).0 ≡ 0x40)
lba48_outs-lba48_of count lba r = (omega arith, omega arith, refl)
