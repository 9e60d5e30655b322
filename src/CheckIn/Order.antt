-- ===== src/CheckIn/Order.antt =====
-- modules/checkins/checkins.service.js and modules/reports/export.service.js: the check-ins of an event
-- in the order of their scans. A check-in that is restored gets a new time of its scan.
use qpass_backend.Prelude.{String, Bool, ◌&&◌, List, [], ◌∷◌, ◌==◌, is_none, if◌then◌else◌, leb}
use qpass_backend.Db.{CheckIn}

-- where: { eventId, deletedAt: null }
abbrev pub live_check_in : String → CheckIn → Bool
live_check_in event_id c = (c.event_id == event_id) && is_none c.deleted_at

-- orderBy: { scannedAt: "desc" }, where equal times keep the order of the table
unfoldable pub insert_by_scan : CheckIn → List CheckIn → List CheckIn
insert_by_scan c [] = c ∷ []
insert_by_scan c (d ∷ ds) =
    let rest = insert_by_scan c ds in if leb d.scanned_at c.scanned_at then c ∷ d ∷ ds else d ∷ rest

unfoldable pub by_scan : List CheckIn → List CheckIn
by_scan [] = []
by_scan (c ∷ cs) = insert_by_scan c (by_scan cs)
