-- ===== src/Replacement/Frame.antt =====
-- FrameId of observer/storage/os/page/frame.h and frame.cpp: the key of every policy.
use csu_dbms.Base.{ℕ, ℕ_discrete}

pub record FrameId : Type 0 where
  pub buffer_pool_id : ℕ
  pub page_num : ℕ

-- `operator==`: two identifiers are equal field by field.
unfoldable pub frame_dec : Discrete FrameId
unfolding ℕ_discrete
frame_dec = hlevel ℕ_discrete

-- What a callback of the policies is told of.
pub data Event : Type 0 where
  insert access remove : FrameId → Event
