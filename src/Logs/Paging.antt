-- ===== src/Logs/Paging.antt =====
-- What a page holds, what reading by pages gives, and what Redis keeps.
use mathlib.Core.List.{append-nil, append_assoc}
use pyxxl.Base.{
  ℕ, zero, suc, ◌+◌, ◌-◌, ◌≤◌, ◌<◌, ◌≡◌, refl, sym, ap, ◌∙◌, subst, String, Bool, true, false, some,
  List, [], ◌∷◌, ◌++◌, length, take, drop, leb, ltb, nat_beq, if◌then◌else◌, if_intro, arith,
  take_nil,
}
use pyxxl.Logs.Store.{lines_of, Progress, read_line, read_loop, disk_response, disk_get_logs}

-- The lines of a page of `tail` lines from line `from` on.
abbrev pub page : ℕ → ℕ → List String → List String
page tail from lines = take tail (drop (from - 1) lines)

read_line-keeps :
    (from i : ℕ) (log : String) (p : Progress)
    → from ≤ i
    → read_line from i log p ≡ record p { logs = p.logs ++ log ∷ []; to_line = i }
unfolding read_line
read_line-keeps from i log p h =
    if_intro (λ q. q ≡ record p { logs = p.logs ++ log ∷ []; to_line = i }) (leb from i) _ _
      (λ e. refl) (λ e. absurd (ground (arith, e, h)))

read_line-skips : (from i : ℕ) (log : String) (p : Progress) → i < from → read_line from i log p ≡ p
unfolding read_line
read_line-skips from i log p h =
    if_intro (λ q. q ≡ p) (leb from i) _ _ (λ e. absurd (ground (arith, e, h))) (λ e. refl)

-- The progress `q` read the lines `lines` after `p`, the first of them numbered `first`.
record IsRead (p q : Progress) (first : ℕ) (lines : List String) (short : Bool) : Type 0 where
  logs : q.logs ≡ p.logs ++ lines
  to_line : q.to_line ≡ (if nat_beq (length lines) 0 then p.to_line else first + length lines - 1)
  at_end : q.at_end ≡ (if short then true else p.at_end)

-- In the page: every line that is read is kept.
read_loop-IsRead :
    (from n i : ℕ) (rest : List String) (p : Progress)
    → from ≤ i
    → IsRead p (read_loop from n i rest p) i (take n rest) (ltb (length rest) n)
unfolding read_loop
read_loop-IsRead from zero i rest p h = record {
  logs = sym (append-nil p.logs);
  to_line = refl;
  at_end = ground arith;
}
read_loop-IsRead from (suc n) i [] p h = record {
  logs = sym (append-nil p.logs);
  to_line = refl;
  at_end = ground arith;
}
read_loop-IsRead from (suc n) i (log ∷ rest) p h =
    let q = record p { logs = p.logs ++ log ∷ []; to_line = i } in
    let keeps = read_line-keeps from i log p h in
    let r = read_loop-IsRead from n (suc i) rest q (omega (arith, h)) in
    let s =
      subst
        (λ x.
          IsRead q (read_loop from n (suc i) rest x) (suc i) (take n rest) (ltb (length rest) n))
        (sym keeps) r in
    record {
      logs = s.logs ∙ append_assoc p.logs (log ∷ []) (take n rest);
      to_line = ground (arith, s.to_line);
      at_end = ground (arith, s.at_end);
    }

-- Before the page: lines are skipped.
read_loop-skips :
    (from skip n m i : ℕ) (rest : List String) (p : Progress)
    → m ≡ skip + n
    → i + skip ≡ from
    → IsRead p (read_loop from m i rest p) from (take n (drop skip rest)) (ltb (length rest) m)
unfolding read_loop
read_loop-skips from zero n m i rest p e h =
    let same : i ≡ from = omega (arith, h) in
    let r = read_loop-IsRead from m i rest p (omega (arith, h)) in
    subst (λ x. IsRead p (read_loop from m i rest p) from (take x rest) (ltb (length rest) m))
      (omega (arith, e))
      (subst (λ x. IsRead p (read_loop from m i rest p) x (take m rest) (ltb (length rest) m)) same
        r)
read_loop-skips from (suc skip) n zero i rest p e h = absurd (ground (arith, e))
read_loop-skips from (suc skip) n (suc m) i [] p e h =
    subst (λ x. IsRead p (record p { at_end = true }) from x (ltb 0 (suc m))) (sym (take_nil n))
      record { logs = sym (append-nil p.logs); to_line = refl; at_end = ground arith }
read_loop-skips from (suc skip) n (suc m) i (log ∷ rest) p e h =
    let r = read_loop-skips from skip n m (suc i) rest p (omega (arith, e)) (omega (arith, h)) in
    let s =
      subst
        (λ x.
          IsRead p (read_loop from m (suc i) rest x) from (take n (drop skip rest))
            (ltb (length rest) m))
        (sym (read_line-skips from i log p (omega (arith, h)))) r in
    record { logs = s.logs; to_line = s.to_line; at_end = ground (arith, s.at_end) }

-- The page of a file from line 1 on or later holds the `tail` lines from `from` on, as far as the
-- file has them; its answered last line is the last one that it holds, or `from` where it holds none;
-- the end is seen exactly when the file has fewer lines than the page could reach.
pub disk_page :
    (tail from : ℕ) (lines : List String)
    → 1 ≤ from
    → ((disk_get_logs tail (some lines) from).log_content ≡ lines_of (page tail from lines))
      × ((disk_get_logs tail (some lines) from).to_line_num ≡ (
          if nat_beq (length (page tail from lines)) 0
          then from
          else from + length (page tail from lines) - 1))
      × ((disk_get_logs tail (some lines) from).is_end ≡ ltb (length lines) (from + tail - 1))
unfolding disk_get_logs disk_response
disk_page tail from lines h =
    let r =
      read_loop-skips from (from - 1) tail (from + tail - 1) 1 lines
        (record { logs = []; to_line = from; at_end = false }) (omega (arith, h))
        (omega (arith, h)) in
    (ap lines_of r.logs, r.to_line, ground (arith, r.at_end))
