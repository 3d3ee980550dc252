-- ===== src/Status.antt =====
-- include/leveldb/status.h: the result of an operation. An error carries its message in two parts;
-- the second is empty where the source gives none.
use Prim.Native.String.{String}
use leveldb_chinese_annotate.Prelude.{Bool, true, false}

pub data Status : Type 0 where
  ok : Status
  not_found corruption not_supported invalid_argument io_error : String → String → Status

abbrev pub is_ok : Status → Bool
is_ok Status.ok = true
is_ok _ = false
