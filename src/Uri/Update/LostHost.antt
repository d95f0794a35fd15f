-- ===== src/Uri/Update/LostHost.antt =====
-- What `Update` makes of a path whose query holds "//".
use fasthttp.Uri.{Uri}
