-- ===== src/SystolicArray/Tiles.antt =====
-- systolic_arr.cpp: the walk over the tiles. A tile position counts the tiles that are issued, in
-- the order of the three nested counters.
use native.Mathlib.Decide.{ℕ_discrete}
use hy_gcn_a_gcn_accelerator.Base.{ℕ, ◌+◌, ◌*◌, ◌<◌, ◌≡◌, ◌⊎◌, ap, arith, inl, inr, refl}
use hy_gcn_a_gcn_accelerator.SystolicArray.{Tiling, ArrayState, finished, count_tile}

abbrev pub position : Tiling → ℕ
position t = (t.batch_cnt * t.num_w_tile + t.w_tile_cnt) * t.num_h_tile + t.h_tile_cnt

abbrev pub num_tiles : Tiling → ℕ
num_tiles t = t.num_batch * t.num_w_tile * t.num_h_tile

pub record InRange (t : Tiling) : Type 0 where
  pub h_in : t.h_tile_cnt < t.num_h_tile
  pub w_in : t.w_tile_cnt < t.num_w_tile
  pub batch_in : t.batch_cnt < t.num_batch

-- What the end of `GenDataFlow` leaves: a tile further down, the next column of tiles, the next
-- batch, or the end.
pub data Next (t t' : Tiling) (st st' : ArrayState) : Type 0 where
  next_h :
      t.h_tile_cnt + 1 < t.num_h_tile
      → t' ≡ record t { h_tile_cnt = t.h_tile_cnt + 1 }
      → st' ≡ st
      → Next t t' st st'
  next_w :
      t.h_tile_cnt + 1 ≡ t.num_h_tile
      → t.w_tile_cnt + 1 < t.num_w_tile
      → t' ≡ record t { h_tile_cnt = 0; w_tile_cnt = t.w_tile_cnt + 1 }
      → st' ≡ st
      → Next t t' st st'
  next_batch :
      t.h_tile_cnt + 1 ≡ t.num_h_tile
      → t.w_tile_cnt + 1 ≡ t.num_w_tile
      → t.batch_cnt + 1 < t.num_batch
      → t' ≡ record t { h_tile_cnt = 0; w_tile_cnt = 0; batch_cnt = t.batch_cnt + 1 }
      → st' ≡ st
      → Next t t' st st'
  end :
      t.h_tile_cnt + 1 ≡ t.num_h_tile
      → t.w_tile_cnt + 1 ≡ t.num_w_tile
      → t.batch_cnt + 1 ≡ t.num_batch
      → t' ≡ record t { h_tile_cnt = 0; w_tile_cnt = 0; batch_cnt = t.batch_cnt + 1 }
      → st' ≡ finished
      → Next t t' st st'

pub count_tile-Next :
    (t : Tiling) (st : ArrayState) → InRange t → Next t (count_tile t st).0 st (count_tile t st).1
unfolding count_tile
count_tile-Next t st v = elim (ℕ_discrete (t.h_tile_cnt + 1) t.num_h_tile) [
  | no p ↦ next_h (omega arith) (ground arith) (ground arith)
  | yes p ↦ elim (ℕ_discrete (t.w_tile_cnt + 1) t.num_w_tile) [
    | no q ↦ next_w p (omega arith) (ground arith) (ground arith)
    | yes q ↦ elim (ℕ_discrete (t.batch_cnt + 1) t.num_batch) [
      | no r ↦ next_batch p q (omega arith) (ground arith) (ground arith)
      | yes r ↦ end p q r (ground arith) (ground arith)
    ]
  ]
]

-- Counting a tile moves one position on; the walk is finished exactly at the last position.
pub Next-position :
    {t t' : Tiling} {st st' : ArrayState}
    → Next t t' st st'
    → InRange t
    → (position t' ≡ position t + 1)
      × ((InRange t' × (st' ≡ st)) ⊎ ((st' ≡ finished) × (position t' ≡ num_tiles t)))
Next-position (next_h p e f) v = rw (e, f) (omega arith, inl (omega arith, refl))
Next-position {t} (next_w p q e f) v = rw (e, f) (grind arith, inl (omega arith, refl))
Next-position {t} (next_batch p q r e f) v =
    rw (e, f) (omega (arith, ap (λ n. n * t.num_h_tile) q), inl (omega arith, refl))
Next-position {t} (end p q r e f) v =
    rw (e, f)
      (
        omega (arith, ap (λ n. n * t.num_h_tile) q),
        inr (refl, omega (arith, ap (λ n. n * t.num_w_tile * t.num_h_tile) r)),
      )

pub index_lt : (r c w h : ℕ) → r < h → c < w → r * w + c < h * w
index_lt r c w h p q = grind arith

pub InRange-position : (t : Tiling) → InRange t → position t < num_tiles t
InRange-position t v =
    index_lt _ t.h_tile_cnt t.num_h_tile _
      (index_lt t.batch_cnt t.w_tile_cnt t.num_w_tile t.num_batch v.batch_in v.w_in) v.h_in
