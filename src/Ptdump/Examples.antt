-- ===== src/Ptdump/Examples.antt =====
-- The fields of concrete words.
use trident_micro21_artifact.Ptdump.Fields.{mkcmd-fields, mkargbuf-mkbase-fields}
use trident_micro21_artifact.Ptdump.{
  exbuf, exbase, excmd, exbits, exlevel, mkbase, exptend, mkcmd, exptstart, mkargbuf,
}
use trident_micro21_artifact.Base.{◌%◌, ◌^◌, ◌<◌, ◌≡◌, refl}

command_word : mkcmd 3 5 511 ≡ 66979075
unfolding mkcmd
command_word = refl

mkcmd-fields_example :
    (excmd (mkcmd 3 5 511) ≡ 3 % 2 ^ 8)
    × (exptstart (mkcmd 3 5 511) ≡ 5 % 2 ^ 9)
    × (exptend (mkcmd 3 5 511) ≡ 511 % 2 ^ 9)
    × (mkcmd 3 5 511 < 2 ^ 26)
mkcmd-fields_example = mkcmd-fields 3 5 511

mkargbuf-mkbase-fields_example :
    (exbuf (mkargbuf 0x7f0012345000 4) ≡ 0x7f0012345000 % 2 ^ 48)
    × (exbits (mkargbuf 0x7f0012345000 4) ≡ 4 % 2 ^ 8)
    × (exbase (mkbase 0x7f0012345000 4) ≡ 0x7f0012345000 % 2 ^ 48)
    × (exlevel (mkbase 0x7f0012345000 4) ≡ 4 % 2 ^ 8)
mkargbuf-mkbase-fields_example = mkargbuf-mkbase-fields 0x7f0012345000 4
