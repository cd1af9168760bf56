-- ===== src/Logs/Following.antt =====
-- Reading a log by pages while it grows, and what Redis keeps of it.
use mathlib.Core.List.{append-nil, append_assoc}
use pyxxl.Base.{
  ℕ, zero, suc, ◌+◌, ◌-◌, ◌≤◌, ◌<◌, ◌≡◌, refl, sym, ap, ◌∙◌, subst, inl, inr, String, some, List,
  [], ◌∷◌, ◌++◌, length, take, drop, leb, nat_beq, if◌then◌else◌, if_intro, Bool-cases, arith,
  length-take, length-drop, length-append,
}
use pyxxl.Logs.Store.{
  Content, lines_of, no_logs, LogResponse, disk_get_logs, emit, emit_all, lrange, behind_end,
  redis_get_logs,
}
use pyxxl.Base.{drop-drop, drop_all, drop-append, take_nil, take_more}
use pyxxl.Logs.Paging.{page, disk_page}

-- The lines of a response.
abbrev pub content_lines : Content → List String
content_lines (lines_of l) = l
content_lines no_logs = []

-- Asking a file for so many pages, each from the line behind the last of the one before.
unfoldable pub disk_pages : ℕ → ℕ → List String → ℕ → List String
disk_pages zero tail lines from = []
disk_pages (suc n) tail lines from =
    let response = disk_get_logs tail (some lines) from in
    content_lines response.log_content ++ disk_pages n tail lines (response.to_line_num + 1)

-- The lines that so many pages hold.
abbrev pub room : ℕ → ℕ → ℕ
room zero tail = 0
room (suc n) tail = tail + room n tail

-- What is behind a page of `tail` lines.
behind_page :
    (tail from next : ℕ) (lines : List String)
    → 1 ≤ from
    → 1 ≤ tail
    → next ≡ (
        if nat_beq (length (page tail from lines)) 0
        then from
        else from + length (page tail from lines) - 1)
    → drop next lines ≡ drop tail (drop (from - 1) lines)
behind_page tail from next lines hf ht e =
    let len = length-take tail (drop (from - 1) lines) in
    let all = length-drop (from - 1) lines in
    elim (Bool-cases (leb (length lines) next)) [
      | inl short ↦
          drop_all next lines (ground (arith, short))
          ∙ sym (drop_all tail (drop (from - 1) lines) (ground (arith, short, e, len, all)))
      | inr long ↦ sym (drop-drop (from - 1) tail next lines (ground (arith, long, e, len, all)))
    ]

-- So many pages of a file, each asked for from the line behind the last one of the page before, are
-- the lines of the file from the first one asked for, as many as the pages can hold: no line is
-- lost or repeated.
pub disk_pages_all :
    (n tail from : ℕ) (lines : List String)
    → 1 ≤ from
    → 1 ≤ tail
    → disk_pages n tail lines from ≡ take (room n tail) (drop (from - 1) lines)
unfolding disk_pages
disk_pages_all zero tail from lines hf ht = refl
disk_pages_all (suc n) tail from lines hf ht =
    let p = disk_page tail from lines hf in
    let to = (disk_get_logs tail (some lines) from).to_line_num in
    let rest = disk_pages_all n tail (to + 1) lines (omega arith) ht in
    let d = drop (from - 1) lines in
    let cut : drop (to + 1 - 1) lines ≡ drop tail d =
      ap (λ x. drop x lines) (omega arith) ∙ behind_page tail from to lines hf ht p.1 in
    ap (λ c. content_lines c ++ disk_pages n tail lines (to + 1)) p.0
    ∙ ap (λ x. take tail d ++ x) (rest ∙ ap (λ x. take (room n tail) x) cut)
    ∙ take_more tail (room n tail) (tail + room n tail) d refl

lrange-page :
    (tail from : ℕ) (lines : List String)
    → 1 ≤ tail
    → lrange lines (from - 1) (from - 1 + tail - 1) ≡ page tail from lines
unfolding lrange
lrange-page tail from lines h = ap (λ n. take n (drop (from - 1) lines)) (omega (arith, h))

-- A page of Redis of at least one line, from line 1 on or later, holds the same lines as a page of a
-- file with this log.
pub redis_page :
    (tail from : ℕ) (lines : List String)
    → 1 ≤ from
    → 1 ≤ tail
    → content_lines (redis_get_logs tail lines from).log_content
      ≡ content_lines (disk_get_logs tail (some lines) from).log_content
unfolding redis_get_logs behind_end
redis_page tail from lines hf ht =
    if_intro (λ (r : LogResponse). content_lines r.log_content ≡ page tail from lines)
      (leb (length lines) (from - 1)) _ _
      (λ e.
        if_intro (λ c. content_lines c ≡ page tail from lines) (nat_beq (length lines) 0) _ _
          (λ z. sym (empty_page (ground (arith, e)))) (λ z. sym (empty_page (ground (arith, e)))))
      (λ e. lrange-page tail from lines ht)
    ∙ sym (ap content_lines (disk_page tail from lines hf).0)
  where
    empty_page : length lines ≤ from - 1 → page tail from lines ≡ []
    empty_page h = ap (take tail) (drop_all (from - 1) lines h) ∙ take_nil tail

redis_to_line :
    (tail from : ℕ) (lines : List String)
    → from - 1 < length lines
    → (redis_get_logs tail lines from).to_line_num ≡ from - 1 + tail
unfolding redis_get_logs
redis_to_line tail from lines h =
    if_intro (λ (r : LogResponse). r.to_line_num ≡ from - 1 + tail) (leb (length lines) (from - 1))
      _ _ (λ e. absurd (ground (arith, e, h))) (λ e. refl)

-- After a page of Redis that has fewer lines than it could hold, the lines by which the log then
-- grows, within what the page could hold, are not in the page that starts behind its last line.
pub redis_page_skips :
    (tail from : ℕ) (lines more : List String)
    → 1 ≤ from
    → 1 ≤ tail
    → from - 1 < length lines
    → length (lines ++ more) ≤ from - 1 + tail
    → content_lines
        (redis_get_logs tail
          (lines ++ more)
          ((redis_get_logs tail lines from).to_line_num + 1)).log_content
      ≡ []
redis_page_skips tail from lines more hf ht inside fits =
    let to = (redis_get_logs tail lines from).to_line_num in
    let overshoot = redis_to_line tail from lines inside in
    redis_page tail (to + 1) (lines ++ more) (omega arith) ht
    ∙ ap content_lines (disk_page tail (to + 1) (lines ++ more) (omega arith)).0
    ∙ ap (take tail) (drop_all (to + 1 - 1) (lines ++ more) (omega (arith, fits, overshoot)))
    ∙ take_nil tail

-- Redis keeps the last `max_lines` lines that were written to a key, in their order.
pub redis_keeps_last :
    (max_lines : ℕ) (lines logs : List String)
    → length lines ≤ max_lines
    → emit_all max_lines lines logs ≡ drop (length (lines ++ logs) - max_lines) (lines ++ logs)
unfolding emit_all emit
redis_keeps_last max_lines lines [] h =
    subst (λ x. lines ≡ drop (length x - max_lines) x) (sym (append-nil lines))
      (subst (λ n. lines ≡ drop n lines) {x = 0} (omega (arith, h)) refl)
redis_keeps_last max_lines lines (log ∷ logs) h =
    let w = lines ++ log ∷ [] in
    let k = length w - max_lines in
    let kept = drop k w in
    let size = length-append kept logs in
    let cut = length-drop k w in
    let whole = length-append w logs in
    redis_keeps_last max_lines kept logs (omega (arith, cut))
    ∙ sym (ap (drop (length (kept ++ logs) - max_lines)) (drop-append k w logs (omega arith)))
    ∙ drop-drop k (length (kept ++ logs) - max_lines) (length (w ++ logs) - max_lines) (w ++ logs)
        (omega (arith, size, cut, whole))
    ∙ ap (λ x. drop (length x - max_lines) x) (append_assoc lines (log ∷ []) logs)
