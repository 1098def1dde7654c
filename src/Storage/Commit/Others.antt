-- ===== src/Storage/Commit/Others.antt =====
-- A commit does not touch the sentences that others have locked.
use distributed_documentatio.Storage.Commit.{take, drop, CText}
use distributed_documentatio.Base.{take, drop, CText}
