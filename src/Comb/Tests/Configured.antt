-- ===== src/Comb/Tests/Configured.antt =====
-- The fetches with the configuration that `Init` makes of small files.
use hy_gcn_a_gcn_accelerator.Base.{refl, ◌≡◌, some, false, first_from}
use hy_gcn_a_gcn_accelerator.Tool.{upper_align}
use hy_gcn_a_gcn_accelerator.AggrBuf
use hy_gcn_a_gcn_accelerator.Coordinator.{empty}
use hy_gcn_a_gcn_accelerator.SystolicArray
use hy_gcn_a_gcn_accelerator.Config.{space_aligned_vertex}
use hy_gcn_a_gcn_accelerator.Config.Init.Tests.{first_layer}
use hy_gcn_a_gcn_accelerator.Comb
use hy_gcn_a_gcn_accelerator.Comb.{World, batch_vertex}
use hy_gcn_a_gcn_accelerator.Comb.Traffic.{
  batch_and_fetch, fetch_step, get_ready_for_fetch, get_inbuf, get_wbuf,
}
use hy_gcn_a_gcn_accelerator.Spm
use hy_gcn_a_gcn_accelerator.Comb.Tests.{unbound, idle_tiling}
use hy_gcn_a_gcn_accelerator.Comb.Reach.{Reach}

-- Two vertices are aggregated, and the engine has done nothing yet.
abbrev fresh : World
unfolding Comb.new SystolicArray.new AggrBuf.new AggrBuf.start_aggr AggrBuf.confirm_aggr
    AggrBuf.advance
fresh = record {
  comb = Comb.new first_layer 0;
  array = SystolicArray.new 1024 1024 1024 4 unbound idle_tiling;
  aggr_buf = AggrBuf.confirm_aggr (AggrBuf.start_aggr (AggrBuf.new 1024 32 32) 2) 2;
  coordinator = empty;
}

-- In that cycle a batch of the two vertices is taken and its buffers are asked for.
takes_batch :
    (w : World) × (batch_and_fetch first_layer fresh ≡ some w)
    × (w.comb.end_vertex ≡ 2)
    × (w.comb.enable_fetch ≡ false)
unfolding fresh batch_and_fetch batch_vertex fetch_step get_ready_for_fetch get_inbuf get_wbuf
    AggrBuf.get_ready_vertex_num AggrBuf.start_comb AggrBuf.advance Spm.get_target_buf Spm.new
    first_from space_aligned_vertex upper_align
takes_batch = (_, refl, refl, refl)
