-- ===== src/Text/Tests.antt =====
-- The text functions at concrete texts.
use hy_gcn_a_gcn_accelerator.Base.{◌≡◌, refl, negsuc, some, List, arith}
use hy_gcn_a_gcn_accelerator.Text.Split.{split_string}
use hy_gcn_a_gcn_accelerator.Text.Split.Parts.{IsSplit, split_string-IsSplit}
use hy_gcn_a_gcn_accelerator.Text.{
  Text, codes, atoi, digits_from, to_string, decimal, fields, cut_at,
}

atoi_signed : atoi (codes " -12x") ≡ negsuc 11
unfolding atoi digits_from
atoi_signed = refl

to_string_large : to_string 10556 ≡ codes "10556"
unfolding to_string decimal
to_string_large = refl

fields_of_line : fields (codes "633,0") ≡ (codes "633", codes "0")
unfolding cut_at
fields_of_line = refl

split_string-IsSplit_example :
    (parts : List Text) × (split_string (codes "633,0,") (codes ",") ≡ some parts)
    × IsSplit (codes ",") (codes "633,0,") parts
split_string-IsSplit_example = split_string-IsSplit (codes "633,0,") (codes ",") (omega arith)
