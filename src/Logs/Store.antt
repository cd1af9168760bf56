-- ===== src/Logs/Store.antt =====
-- pyxxl/logger/disk.py and pyxxl/logger/redis.py: writing a line and reading a page. A log is the
-- list of its lines; the text of a response is their concatenation. Lines are numbered from 1.
use pyxxl.Base.{
  ℕ, zero, suc, ◌+◌, ◌-◌, String, Bool, true, false, Option, none, some, List, [], ◌∷◌, ◌++◌,
  length, take, drop, leb, nat_beq, if◌then◌else◌,
}

-- The content of a `LogResponse`: lines of the log, or "No such logid logs."
pub data Content : Type 0 where
  lines_of : List String → Content
  no_logs : Content

-- `LogResponse`
pub record LogResponse : Type 0 where
  pub from_line_num : ℕ
  pub to_line_num : ℕ
  pub log_content : Content
  pub is_end : Bool

-- What the loop of DiskLog.get_logs has so far: `logs`, `to_line_num` and `is_end`.
pub record Progress : Type 0 where
  pub logs : List String
  pub to_line : ℕ
  pub at_end : Bool

-- the body of the loop for a line that was read
unfoldable pub read_line : ℕ → ℕ → String → Progress → Progress
read_line from i log p =
    if leb from i then record p { logs = p.logs ++ log ∷ []; to_line = i } else p

-- the loop, with the rounds that are left, the number of the line and the lines from it on
unfoldable pub read_loop : ℕ → ℕ → ℕ → List String → Progress → Progress
read_loop from zero i rest p = p
read_loop from (suc n) i [] p = record p { at_end = true }
read_loop from (suc n) i (log ∷ rest) p = read_loop from n (suc i) rest (read_line from i log p)

unfoldable pub disk_response : ℕ → Progress → LogResponse
disk_response from p = record {
  from_line_num = from;
  to_line_num = p.to_line;
  log_content = lines_of p.logs;
  is_end = p.at_end;
}

-- DiskLog.get_logs, of a file that may be missing
unfoldable pub disk_get_logs : ℕ → Option (List String) → ℕ → LogResponse
disk_get_logs tail none from = record {
  from_line_num = from;
  to_line_num = from;
  log_content = no_logs;
  is_end = false;
}
disk_get_logs tail (some lines) from = disk_response from (
    read_loop from (from + tail - 1) 1 lines (record { logs = []; to_line = from; at_end = false }))

-- RedisHandler.emit: `rpush`, and `ltrim` to the last `max_lines`
unfoldable pub emit : ℕ → List String → String → List String
emit max_lines lines log = let pushed = lines ++ log ∷ [] in drop (length pushed - max_lines) pushed

unfoldable pub emit_all : ℕ → List String → List String → List String
emit_all max_lines lines [] = lines
emit_all max_lines lines (log ∷ logs) = emit_all max_lines (emit max_lines lines log) logs

-- `lrange(key, first, last)` with `last` included, for indices that are not negative
unfoldable pub lrange : List String → ℕ → ℕ → List String
lrange lines first last = take (suc last - first) (drop first lines)

-- the content of RedisLog.get_logs from a line at or behind the end
unfoldable pub behind_end : ℕ → Content
behind_end llen = if nat_beq llen 0 then no_logs else lines_of []

-- RedisLog.get_logs, where Redis answers; a missing key is an empty list
unfoldable pub redis_get_logs : ℕ → List String → ℕ → LogResponse
redis_get_logs tail lines from =
    let from_line = from - 1 in
    let to_line = from - 1 + tail in
    let llen = length lines in
    if leb llen from_line
    then record {
      from_line_num = from;
      to_line_num = from;
      log_content = behind_end llen;
      is_end = leb llen to_line;
    }
    else record {
      from_line_num = from;
      to_line_num = to_line;
      log_content = lines_of (lrange lines from_line (to_line - 1));
      is_end = leb llen to_line;
    }
