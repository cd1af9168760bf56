-- ===== src/Logs/Examples.antt =====
-- A log of five lines, read by pages of two.
use pyxxl.Base.{
  ℕ, Bool, true, false, not, ◌&&◌, ◌||◌, contains, ◌+◌, ◌-◌, ◌≡◌, String, some, List, [], ◌∷◌, ◌++◌,
  length, take, drop, ltb, nat_beq, arith, if◌then◌else◌,
}
use pyxxl.Logs.Expiry.{
  LogFile, scan_expired_files, expired_once, expired_loop, appear, paths, all_deletable, expired_at,
  expired_once_exact,
}
use pyxxl.Logs.Store.{lines_of, disk_get_logs, redis_get_logs}
use pyxxl.Logs.Paging.{page, disk_page}
use pyxxl.Logs.Following.{
  content_lines, disk_pages, room, disk_pages_all, redis_page, redis_page_skips,
}

abbrev log : List String
log = "a" ∷ "b" ∷ "c" ∷ "d" ∷ "e" ∷ []

disk_page_example :
    ((disk_get_logs 2 (some log) 4).log_content ≡ lines_of (page 2 4 log))
    × ((disk_get_logs 2 (some log) 4).to_line_num
        ≡ (if nat_beq (length (page 2 4 log)) 0 then 4 else 4 + length (page 2 4 log) - 1))
    × ((disk_get_logs 2 (some log) 4).is_end ≡ ltb (length log) (4 + 2 - 1))
disk_page_example = disk_page 2 4 log (omega arith)

disk_pages_all_example : disk_pages 2 2 log 2 ≡ take (room 2 2) (drop (2 - 1) log)
disk_pages_all_example = disk_pages_all 2 2 2 log (omega arith) (omega arith)

redis_page_example :
    content_lines (redis_get_logs 2 log 4).log_content
    ≡ content_lines (disk_get_logs 2 (some log) 4).log_content
redis_page_example = redis_page 2 4 log (omega arith) (omega arith)

-- The page that starts at line 5 holds one line of two: the line "f" that follows is not read.
redis_page_skips_example :
    content_lines
      (redis_get_logs 2 (log ++ "f" ∷ []) ((redis_get_logs 2 log 5).to_line_num + 1)).log_content
    ≡ []
redis_page_skips_example =
    redis_page_skips 2 5 log ("f" ∷ []) (omega arith) (omega arith) (omega arith) (omega arith)

-- An old log, a new one, and an old log that cannot be deleted.
abbrev directory : List LogFile
directory =
    (record { path = 0; is_log = true; ctime = some 5 }
      ∷ record { path = 1; is_log = true; ctime = some 90 }
      ∷ record { path = 2; is_log = true; ctime = some 6 }
      ∷ record { path = 3; is_log = false; ctime = some 6 }
      ∷ [])

abbrev not_two : ℕ → Bool
not_two p = not (nat_beq p 2)

expired_once_exact_example :
    let r = expired_once not_two true 100 50 (directory ++ []) in
    let expired = expired_at (100 - 50) 0 (directory ++ []) in
    (r.0 ≡ all_deletable not_two (scan_expired_files (100 - 50) (directory ++ [])))
    × ((contains (paths r.1) 0 || expired) ≡ (contains (paths (directory ++ [])) 0 || expired))
    × ((r.0 && contains (paths r.1) 0)
        ≡ (r.0 && (contains (paths (directory ++ [])) 0 && not expired)))
    × ((if r.0 then [] else expired_loop not_two 50 ((100, []) ∷ (200, []) ∷ []) directory)
        ≡ (if r.0 then [] else r.1 ++ appear ((200, []) ∷ [])))
expired_once_exact_example = expired_once_exact not_two 100 50 0 directory [] ((200, []) ∷ [])
