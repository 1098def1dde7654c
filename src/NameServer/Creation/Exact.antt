-- ===== src/NameServer/Creation/Exact.antt =====
-- CREATE, from its message to its reply.
use distributed_documentatio.NameServer.State.{NameServer}
