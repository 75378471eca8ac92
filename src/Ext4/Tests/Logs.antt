-- ===== src/Ext4/Tests/Logs.antt =====
-- Messages of three levels, and a log for errors.
use spotlight.Base.{◌≡◌, List, [], ◌∷◌, ◌++◌, arith}
use spotlight.Base.Int.{ℤ, pos, negsuc}
use spotlight.Base.Result.{ok}
use spotlight.Ext4.Logging.{Message, log_all, writing, lines_of, log_all-lines_of}

abbrev message : ℤ → Message
message level = record { level = level; func = 102 ∷ []; line = 10; text = 120 ∷ [] }

abbrev messages : List Message
messages = message (pos 7) ∷ (message (pos 3) ∷ (message (negsuc 0) ∷ (message (pos 0) ∷ [])))

log_all-lines_of_example :
    log_all (writing 3 []) messages ≡ ok (writing 3 ([] ++ lines_of 3 messages))
log_all-lines_of_example = log_all-lines_of 3 [] messages (omega arith)
