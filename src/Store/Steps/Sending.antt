-- ===== src/Store/Steps/Sending.antt =====
-- Nothing is sent for a task after its revocation (store.py).
use agent_comm.Store.Steps.{Steps}
