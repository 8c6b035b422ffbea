-- ===== src/Sessions/Lost.antt =====
-- What becomes of a summary that a client records when it ends a session.
use dk_agent_memory.Consolidate.Backend.{Backend}
