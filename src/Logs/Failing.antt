-- ===== src/Logs/Failing.antt =====
-- pyxxl/logger/redis.py: `RedisLog.get_logs` where Redis may raise an error.
use pyxxl.Base.{
  ℕ, ◌+◌, ◌-◌, ◌≤◌, ◌<◌, ◌≡◌, refl, ap, ◌∙◌, String, true, Option, none, some, List, [], length,
  take, drop, leb, if◌then◌else◌, if_intro, arith,
}
use pyxxl.Logs.Store.{lines_of, no_logs, LogResponse, lrange, behind_end, redis_get_logs}
use pyxxl.Logs.Paging.{disk_page}
use pyxxl.Logs.Following.{content_lines, redis_page}

abbrev pub or_none : Option (List String) → List String
or_none none = []
or_none (some l) = l

-- RedisLog.get_logs, by what `llen` and `lrange` give, or their errors
unfoldable pub redis_read : Option ℕ → (ℕ → ℕ → Option (List String)) → ℕ → ℕ → LogResponse
redis_read none slice tail from = record {
  from_line_num = from;
  to_line_num = from;
  log_content = no_logs;
  is_end = true;
}
redis_read (some llen) slice tail from =
    let from_line = from - 1 in
    let to_line = from - 1 + tail in
    if leb llen from_line
    then record {
      from_line_num = from;
      to_line_num = from;
      log_content = behind_end llen;
      is_end = leb llen to_line;
    }
    else record {
      from_line_num = from;
      to_line_num = to_line;
      log_content = lines_of (or_none (slice from_line (to_line - 1)));
      is_end = leb llen to_line;
    }

failed_slice :
    (tail from : ℕ) (lines : List String)
    → from - 1 < length lines
    → let r = redis_read (some (length lines)) (λ a b. none) tail from in
      (content_lines r.log_content ≡ []) × (r.to_line_num ≡ from - 1 + tail)
unfolding redis_read
failed_slice tail from lines inside =
    if_intro
      (λ (r : LogResponse). (content_lines r.log_content ≡ []) × (r.to_line_num ≡ from - 1 + tail))
      (leb (length lines) (from - 1)) _ _ (λ e. absurd (ground (arith, e, inside)))
      (λ e. (refl, refl))

-- Where Redis raises no error the page is that of `redis_get_logs`. An error of `llen` is answered
-- without lines, as the end of the log. After an error of `lrange` for a page inside the log, the
-- answer has no lines either, but counts as a full page: a reader that goes on behind it gets the
-- lines that follow the page, and never those of the page.
pub redis_errors :
    (tail from : ℕ) (lines : List String)
    → 1 ≤ from
    → 1 ≤ tail
    → from - 1 < length lines
    → (redis_read (some (length lines)) (λ a b. some (lrange lines a b)) tail from
        ≡ redis_get_logs tail lines from)
      × ((redis_read none (λ a b. none) tail from).is_end ≡ true)
      × (content_lines (redis_read none (λ a b. none) tail from).log_content ≡ [])
      × (let failed = redis_read (some (length lines)) (λ a b. none) tail from in
          (content_lines failed.log_content ≡ [])
          × (content_lines (redis_get_logs tail lines (failed.to_line_num + 1)).log_content
              ≡ take tail (drop (from - 1 + tail) lines)))
unfolding redis_read redis_get_logs
redis_errors tail from lines hf ht inside =
    let f = failed_slice tail from lines inside in
    let to = (redis_read (some (length lines)) (λ a b. none) tail from).to_line_num in
    (
      refl,
      refl,
      refl,
      (
        f.0,
        redis_page tail (to + 1) lines (omega arith) ht
            ∙ ap content_lines (disk_page tail (to + 1) lines (omega arith)).0
            ∙ ap (λ n. take tail (drop n lines)) (omega (arith, f.1)),
      ),
    )
