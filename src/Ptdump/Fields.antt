-- ===== src/Ptdump/Fields.antt =====
-- The words of trident-workloads/common/ptdump.h give back the fields they were made of.
use trident_micro21_artifact.Ptdump.{
  exptend, mkargbuf, exlevel, exbuf, excmd, exbits, mkcmd, exptstart, exbase, mkbase,
}
use trident_micro21_artifact.Base.{
  ℕ, ◌+◌, ◌*◌, ◌/◌, ◌%◌, ◌^◌, ◌<◌, bit_or, ◌≡◌, ap₂, ◌∙◌, arith, bit_or_fields, bit_and_mask,
  bit_or_above,
}

mkcmd_sum :
    (cmd ptstart ptend : ℕ)
    → mkcmd cmd ptstart ptend ≡ cmd % 2 ^ 8 + ptstart % 2 ^ 9 * 2 ^ 8 + ptend % 2 ^ 9 * 2 ^ 17
unfolding mkcmd
mkcmd_sum cmd ptstart ptend =
    let low = bit_or_fields 8 (cmd % 2 ^ 8) (ptstart % 2 ^ 9) (omega arith) in
    let all =
      bit_or_fields 17 (cmd % 2 ^ 8 + ptstart % 2 ^ 9 * 2 ^ 8) (ptend % 2 ^ 9) (omega arith) in
    ap₂ bit_or
      (ap₂ bit_or (omega (arith, bit_and_mask 8 cmd)) (omega (arith, bit_and_mask 9 ptstart)) ∙ low)
      (omega (arith, bit_and_mask 9 ptend))
    ∙ all

-- A command word gives back the command modulo 2 ^ 8 and the two bounds modulo 2 ^ 9, for all
-- operands, so exactly the fields where they fit.
pub mkcmd-fields :
    (cmd ptstart ptend : ℕ)
    → (excmd (mkcmd cmd ptstart ptend) ≡ cmd % 2 ^ 8)
      × (exptstart (mkcmd cmd ptstart ptend) ≡ ptstart % 2 ^ 9)
      × (exptend (mkcmd cmd ptstart ptend) ≡ ptend % 2 ^ 9)
      × (mkcmd cmd ptstart ptend < 2 ^ 26)
unfolding excmd exptstart exptend
mkcmd-fields cmd ptstart ptend =
    let x = mkcmd cmd ptstart ptend in
    let sum = mkcmd_sum cmd ptstart ptend in
    (
      omega (arith, bit_and_mask 8 x),
      omega (arith, bit_and_mask 9 (x / 2 ^ 8)),
      omega (arith, bit_and_mask 9 (x / 2 ^ 17)),
      omega arith,
    )

mkargbuf_sum : (buf bits : ℕ) → mkargbuf buf bits ≡ buf % 2 ^ 48 + bits % 2 ^ 8 * 2 ^ 48
unfolding mkargbuf
mkargbuf_sum buf bits =
    ap₂ bit_or (bit_and_mask 48 buf) (omega (arith, bit_and_mask 8 bits))
    ∙ bit_or_fields 48 (buf % 2 ^ 48) (bits % 2 ^ 8) (omega arith)

mkbase_sum : (base level : ℕ) → mkbase base level ≡ base % 2 ^ 48 + level % 2 ^ 8 * 2 ^ 48
unfolding mkbase
mkbase_sum base level =
    ap₂ bit_or (omega (arith, bit_and_mask 8 level)) (bit_and_mask 48 base)
    ∙ bit_or_above 48 (base % 2 ^ 48) (level % 2 ^ 8) (omega arith)

-- An argument word gives back the buffer modulo 2 ^ 48 and the bits modulo 2 ^ 8, and a table word the
-- base modulo 2 ^ 48 and the level modulo 2 ^ 8, for all operands.
pub mkargbuf-mkbase-fields :
    (buf bits : ℕ)
    → (exbuf (mkargbuf buf bits) ≡ buf % 2 ^ 48)
      × (exbits (mkargbuf buf bits) ≡ bits % 2 ^ 8)
      × (exbase (mkbase buf bits) ≡ buf % 2 ^ 48)
      × (exlevel (mkbase buf bits) ≡ bits % 2 ^ 8)
unfolding exbuf exbits exbase exlevel
mkargbuf-mkbase-fields buf bits =
    let arg = mkargbuf_sum buf bits in
    let base = mkbase_sum buf bits in
    (
      omega (arith, bit_and_mask 48 (mkargbuf buf bits)),
      omega (arith, bit_and_mask 8 (mkargbuf buf bits / 2 ^ 48)),
      omega (arith, bit_and_mask 48 (mkbase buf bits)),
      omega arith,
    )
