-- ===== src/Service/Variables.antt =====
-- The variables of the scripts while clients come and go.
use cgproxy.Json.{Json}
use cgproxy.Socket.Server.{Server}
