-- ===== src/Ptdump.antt =====
-- trident-workloads/common/ptdump.h: the words that carry the commands and the page tables of the
-- page-table dump facility. Operands are machine words; a cast to `unsigned int` cuts to
-- `2 ^ 32`, one to `unsigned long` to `2 ^ 64`. `arg >> 48` is a shift of an unsigned word.
pub mod Fields
mod Examples
use trident_micro21_artifact.Base.{ℕ, ◌*◌, ◌/◌, ◌%◌, ◌^◌, bit_and, bit_or}

-- `PTDUMP_IOCTL_MKCMD`
unfoldable pub mkcmd : (cmd ptstart ptend : ℕ) → ℕ
mkcmd cmd ptstart ptend =
    bit_or (bit_or (bit_and cmd 0xff % 2 ^ 32) (bit_and ptstart 0x1ff % 2 ^ 32 * 2 ^ 8 % 2 ^ 32))
      (bit_and ptend 0x1ff % 2 ^ 32 * 2 ^ 17 % 2 ^ 32)

-- `PTDUMP_IOCTL_EXCMD`, `PTDUMP_IOCTL_EXPTSTART` and `PTDUMP_IOCTL_EXPTEND`
unfoldable pub excmd : ℕ → ℕ
excmd x = bit_and x 0xff % 2 ^ 32

unfoldable pub exptstart : ℕ → ℕ
exptstart x = bit_and (x / 2 ^ 8) 0x1ff % 2 ^ 32

unfoldable pub exptend : ℕ → ℕ
exptend x = bit_and (x / 2 ^ 17) 0x1ff % 2 ^ 32

-- `PTDUMP_IOCTL_MKARGBUF`
unfoldable pub mkargbuf : (buf bits : ℕ) → ℕ
mkargbuf buf bits =
    bit_or (bit_and buf 0xffffffffffff) (bit_and bits 0xff % 2 ^ 64 * 2 ^ 48 % 2 ^ 64)

-- `PTDUMP_IOCTL_EXBUF` and `PTDUMP_IOCTL_EXBITS`
unfoldable pub exbuf : ℕ → ℕ
exbuf arg = bit_and arg 0xffffffffffff

unfoldable pub exbits : ℕ → ℕ
exbits arg = bit_and (arg / 2 ^ 48) 0xff

-- `PTDUMP_TABLE_MKBASE`
unfoldable pub mkbase : (base level : ℕ) → ℕ
mkbase base level = bit_or (bit_and level 0xff * 2 ^ 48 % 2 ^ 64) (bit_and base 0xffffffffffff)

-- `PTDUMP_TABLE_EXLEVEL` and `PTDUMP_TABLE_EXBASE`
unfoldable pub exlevel : ℕ → ℕ
exlevel base = base / 2 ^ 48 % 2 ^ 32

unfoldable pub exbase : ℕ → ℕ
exbase base = bit_and base 0xffffffffffff
