-- ===== src/Tests/Retries.antt =====
-- Tests of the database client's retry: the first of three attempts fails.
use wealthfinder.Prelude.{ℕ, suc, ◌≡◌, some}
use wealthfinder.Database.{WriteEnd, returned, failed, transient, Written, db_write_with_retry}
use wealthfinder.Database.Retries.{Ended, db_write_with_retry-Ended}

abbrev write : ℕ → WriteEnd ℕ
write (suc (suc n)) = returned n
write _ = failed transient

db_write_with_retry-Ended_example :
    (last : ℕ) × (w : Written ℕ) × (db_write_with_retry 3 200 write ≡ some w)
    × Ended 3 200 write 1 last w
db_write_with_retry-Ended_example = db_write_with_retry-Ended 3 200 write
