-- ===== src/Examples/InEighths.antt =====
-- The quantities of the small database are whole numbers of eighths of a unit.
use warehousehub.Base.{ℕ, ◌*◌, pos, IsEighths, arith}
use warehousehub.Db.{OutboundStatus}
use warehousehub.Picking.Reserve.InEighths.{AreEighths}
use warehousehub.Examples.Database.{database}

pub eighths : (n : ℕ) → IsEighths (pos (n * 125))
eighths n = record { gain = n; loss = 0; parts = omega arith }

pub database-AreEighths : AreEighths (database OutboundStatus.picking).stocks
database-AreEighths =
    ((eighths 40, eighths 0), ((eighths 32, eighths 24), ((eighths 72, eighths 0), tt)))
