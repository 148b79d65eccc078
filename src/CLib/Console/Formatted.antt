-- ===== src/CLib/Console/Formatted.antt =====
-- Formatted text on the console.
use cs61_f26_psets.Common.Memory.{Memory}
