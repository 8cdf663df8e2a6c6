-- ===== src/Driver/Dump.antt =====
-- hygcn_test/test.cpp, `Dump`: the records of the layers as a file of comma-separated values.
use mathlib.Core.List.{append_assoc}
use hy_gcn_a_gcn_accelerator.Base.{
  ℕ, ◌+◌, ◌≡◌, refl, ap, arith, ◌∙◌, Bool, true, ◌&&◌, List, [], ◌∷◌, ◌++◌, All, map,
}
use hy_gcn_a_gcn_accelerator.Text.{Text, codes, to_string}
use hy_gcn_a_gcn_accelerator.Text.Table.{
  table, push_cell, is_plain, IsPlain, IsPlain-tail, table-cell, table-end, to_string-IsPlain,
}
use hy_gcn_a_gcn_accelerator.HyRec.{
  HyRec, Energies, line, values, names, get_string, get_header_string,
}

-- The loop over the records, from number `i` on; a record has the texts of its energies with it.
unfoldable pub dump_records : Text → ℕ → List (HyRec × Energies) → Text
dump_records name i [] = []
dump_records name i ((r, e) ∷ records) =
    (name ++ (b',' ∷ (to_string i ++ (b',' ∷ get_string r e)))) ++ dump_records name (i + 1) records

-- The path of the file, and what is in it.
unfoldable pub dump : List (HyRec × Energies) → Text → Text → Text → Text × Text
unfolding dump_records
dump records dir_path gcn_type dataset_name =
    let name = gcn_type ++ (b'_' ∷ dataset_name) in
    (
      dir_path ++ (b'/' ∷ (name ++ codes ".csv")),
      codes "name,layer," ++ (get_header_string ++ dump_records name 0 records),
    )

-- What a column of the file is to hold: the heading, and the value of a record under it.
abbrev pub columns : List (Text × (HyRec → Energies → Text))
columns =
    (codes "finish_time", λ r e. to_string r.finish_time)
    ∷ (codes "aggr_end_time", λ r e. to_string r.aggr_end_time)
    ∷ (codes "comb_end_time", λ r e. to_string r.comb_end_time)
    ∷ (codes "dram_energy", λ r e. e.dram_energy)
    ∷ (codes "dram_dynamic_energy", λ r e. e.dram_dynamic_energy)
    ∷ (codes "dram_standby_energy", λ r e. e.dram_standby_energy)
    ∷ (codes "dram_edge_read", λ r e. to_string r.dram_edge_read)
    ∷ (codes "dram_input_read", λ r e. to_string r.dram_input_read)
    ∷ (codes "edram_aggr_read", λ r e. to_string r.edram_aggr_read)
    ∷ (codes "edram_aggr_write", λ r e. to_string r.edram_aggr_write)
    ∷ (codes "dram_weight_read", λ r e. to_string r.dram_weight_read)
    ∷ (codes "dram_output_write", λ r e. to_string r.dram_output_write)
    ∷ (codes "sram_ebuf_read", λ r e. to_string r.sram_ebuf_read)
    ∷ (codes "sram_ebuf_write", λ r e. to_string r.sram_ebuf_write)
    ∷ (codes "sram_inbuf_read", λ r e. to_string r.sram_inbuf_read)
    ∷ (codes "sram_input_write", λ r e. to_string r.sram_input_write)
    ∷ (codes "sram_wbuf_read", λ r e. to_string r.sram_wbuf_read)
    ∷ (codes "sram_wbuf_write", λ r e. to_string r.sram_wbuf_write)
    ∷ (codes "sram_outbuf_read", λ r e. to_string r.sram_outbuf_read)
    ∷ (codes "sram_outbuf_write", λ r e. to_string r.sram_outbuf_write)
    ∷ (codes "simd_mac_op", λ r e. to_string r.simd_mac_op)
    ∷ (codes "systolic_mac_op", λ r e. to_string r.systolic_mac_op)
    ∷ (codes "systolic_add_op", λ r e. to_string r.systolic_add_op)
    ∷ (codes "num_act_cmds", λ r e. to_string r.num_act_cmds)
    ∷ (codes "num_pre_cmds", λ r e. to_string r.num_pre_cmds)
    ∷ (codes "num_read_cmds", λ r e. to_string r.num_read_cmds)
    ∷ (codes "num_write_cmds", λ r e. to_string r.num_write_cmds)
    ∷ (codes "num_ref_cmds", λ r e. to_string r.num_ref_cmds)
    ∷ (codes "num_read_row_hits", λ r e. to_string r.num_read_row_hits)
    ∷ (codes "num_write_row_hits", λ r e. to_string r.num_write_row_hits)
    ∷ []

abbrev pub cells : HyRec → Energies → List Text
cells r e = map (λ c. c.1 r e) columns

-- A row for each record.
abbrev pub rows_of : Text → ℕ → List (HyRec × Energies) → List (List Text)
rows_of name i [] = []
rows_of name i ((r, e) ∷ records) = (name ∷ to_string i ∷ cells r e) ∷ rows_of name (i + 1) records

-- A line is read as its fields.
table-line :
    (field : Text) (fields : List Text) (t : Text)
    → All IsPlain (field ∷ fields)
    → table (line (field ∷ fields) ++ t) ≡ (field ∷ fields) ∷ table t
table-line field [] t p = ap table (append_assoc field (10 ∷ []) t) ∙ table-end field t p.0
table-line field (next ∷ rest) t p =
    ap table (append_assoc field (b',' ∷ line (next ∷ rest)) t)
    ∙ table-cell field (line (next ∷ rest) ++ t) p.0
    ∙ ap (push_cell field) (table-line next rest t p.1)

IsPlain-append : (s t : Text) → IsPlain s → IsPlain t → IsPlain (s ++ t)
unfolding is_plain
IsPlain-append [] t p q = q
IsPlain-append (c ∷ s) t p q = ground (arith, p, IsPlain-append s t (IsPlain-tail c s p) q)

-- The texts of the energies can stand in a cell.
abbrev pub PlainEnergies : HyRec × Energies → Type 0
PlainEnergies (r, e) =
    IsPlain e.dram_energy × IsPlain e.dram_dynamic_energy × IsPlain e.dram_standby_energy

all_plain : List Text → Bool
all_plain [] = true
all_plain (field ∷ fields) = is_plain field && all_plain fields

all_plain-All : (fields : List Text) → all_plain fields ≡ true → All IsPlain fields
unfolding all_plain
all_plain-All [] e = tt
all_plain-All (field ∷ fields) e = (ground (arith, e), all_plain-All fields (ground (arith, e)))

values-IsPlain : (r : HyRec) (e : Energies) → PlainEnergies (r, e) → All IsPlain (values r e)
unfolding all_plain
values-IsPlain r e p =
    all_plain-All (values r e) (simp (to_string-IsPlain, p.0, p.1, p.2, all_plain) refl)

names-IsPlain : All IsPlain names
unfolding is_plain all_plain
names-IsPlain = all_plain-All names refl

table-records :
    (name : Text) (i : ℕ) (records : List (HyRec × Energies))
    → IsPlain name
    → All PlainEnergies records
    → table (dump_records name i records) ≡ rows_of name i records ++ (([] ∷ []) ∷ [])
unfolding dump_records get_string table
table-records name i [] p q = refl
table-records name i ((r, e) ∷ records) p q =
    table-line name (to_string i ∷ values r e) (dump_records name (i + 1) records)
      (p, (to_string-IsPlain i, values-IsPlain r e q.0))
    ∙ ap (◌∷◌ (name ∷ to_string i ∷ values r e)) (table-records name (i + 1) records p q.1)

-- The file that `Dump` writes, read as lines of cells, is the row of the headings, a row for each record
-- with the name of the run, the number of the layer and under each heading the value of the record that
-- the heading names, as `columns` pairs the headings with the fields of a record, and nothing
-- after the last line break, where the name of the model, that of the graph and the texts of the
-- energies have neither a comma nor a line break in them. The path ends in the name of the run.
pub table-dump :
    (records : List (HyRec × Energies)) (dir_path gcn_type dataset_name : Text)
    → IsPlain gcn_type
    → IsPlain dataset_name
    → All PlainEnergies records
    → let name = gcn_type ++ (b'_' ∷ dataset_name) in
      let file = dump records dir_path gcn_type dataset_name in
      (file.0 ≡ dir_path ++ (b'/' ∷ (name ++ codes ".csv")))
      × (table file.1
          ≡ (codes "name" ∷ codes "layer" ∷ map (λ c. c.0) columns)
            ∷ (rows_of name 0 records ++ (([] ∷ []) ∷ [])))
unfolding dump get_header_string is_plain
table-dump records dir_path gcn_type dataset_name p q r =
    let name : Text = gcn_type ++ (b'_' ∷ dataset_name) in
    let plain : IsPlain name = IsPlain-append gcn_type (b'_' ∷ dataset_name) p q in
    (
      refl,
      table-line (codes "name") (codes "layer" ∷ names) (dump_records name 0 records)
            (refl, (refl, names-IsPlain))
          ∙ ap (◌∷◌ (codes "name" ∷ codes "layer" ∷ names)) (table-records name 0 records plain r),
    )
