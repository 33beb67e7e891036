-- ===== src/Recovery/LogType.antt =====
-- src/recovery/log_manager.h: the values of the enumeration LogType.
use grmdb.Base.Int.{ℤ, pos}

abbrev pub update : ℤ
update = pos 0

abbrev pub insert : ℤ
insert = pos 1

abbrev pub delete : ℤ
delete = pos 2

abbrev pub begin : ℤ
begin = pos 3

abbrev pub commit : ℤ
commit = pos 4

abbrev pub abort : ℤ
abort = pos 5

abbrev pub checkpoint : ℤ
checkpoint = pos 6
