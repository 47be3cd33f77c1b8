-- ===== src/Map/Order.antt =====
-- `Ord` of the machine words.
use dodb.Map.{IsOrder}
use dodb.Prelude.{compare, arith}

pub compare-IsOrder : IsOrder compare
compare-IsOrder = record {
  eq_iff = λ a b. ground arith;
  lt_gt = λ a b h. ground arith;
  gt_lt = λ a b h. ground arith;
  trans = λ a b c h k. ground arith;
}
