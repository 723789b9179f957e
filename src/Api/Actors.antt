-- ===== src/Api/Actors.antt =====
-- Whom the audit log names for a request: `get_actor` of src/api/routes.py.
use litellm_control_plane.World.{World}
