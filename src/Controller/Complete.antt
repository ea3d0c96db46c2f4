-- ===== src/Controller/Complete.antt =====
-- That a tick of services/controller/domain.py overlooks no asset of the catalog that passes the gates.
use mathlib.Core.List.{Memᴰ}
use honeypot_fyp.Prelude.{List, Option}
use honeypot_fyp.Common.Dict.{Dict}
