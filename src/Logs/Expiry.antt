-- ===== src/Logs/Expiry.antt =====
-- pyxxl/logger/disk.py: `_scan_expired_files` and `expired_once`; pyxxl/logger/common.py:
-- `expired_loop`. A path is a number; times are whole seconds.
use pyxxl.Base.{
  ℕ, ◌-◌, ◌≡◌, refl, ap, ◌∙◌, sym, inl, inr, Bool, true, false, not, ◌&&◌, ◌||◌, Option, none, some,
  List, [], ◌∷◌, ◌++◌, map, contains, nat_beq, ltb, if◌then◌else◌, arith, Bool-cases,
}

-- A file of the log directory: whether it has the name of a task log and is a file, and the time that
-- `getctime` gives, or its error.
pub record LogFile : Type 0 where
  pub path : ℕ
  pub is_log : Bool
  pub ctime : Option ℕ

-- `ctime < expire_timestamp`; a file whose time cannot be read is skipped
abbrev pub is_before : ℕ → Option ℕ → Bool
is_before limit none = false
is_before limit (some t) = ltb t limit

-- the loop of _scan_expired_files
unfoldable pub scan_expired_files : ℕ → List LogFile → List ℕ
scan_expired_files limit [] = []
scan_expired_files limit (f ∷ fs) =
    let rest = scan_expired_files limit fs in
    if f.is_log && is_before limit f.ctime then f.path ∷ rest else rest

-- p.unlink(missing_ok=True)
unfoldable pub unlink : ℕ → List LogFile → List LogFile
unlink p [] = []
unlink p (f ∷ fs) = let rest = unlink p fs in if nat_beq f.path p then rest else f ∷ rest

-- the files that appear before the rounds that are left
unfoldable pub appear : List (ℕ × List LogFile) → List LogFile
appear [] = []
appear ((now, new) ∷ rounds) = new ++ appear rounds

-- the loop of expired_once: `false` where `unlink` raises
module _ (deletable : ℕ → Bool) where
  unfoldable pub delete_all : List ℕ → List LogFile → Bool × List LogFile
  delete_all [] dir = (true, dir)
  delete_all (p ∷ ps) dir =
      let rest = delete_all ps (unlink p dir) in if deletable p then rest else (false, dir)

  -- expired_once: the directory may be missing
  unfoldable pub expired_once : Bool → ℕ → ℕ → List LogFile → Bool × List LogFile
  unfolding delete_all scan_expired_files
  expired_once exists now expired_seconds dir =
      delete_all (if exists then scan_expired_files (now - expired_seconds) dir else []) dir

  -- expired_loop, over the times of its rounds and the files that appear before each: an exception
  -- ends it
  unfoldable pub expired_loop : ℕ → List (ℕ × List LogFile) → List LogFile → List LogFile
  unfolding expired_once appear
  expired_loop expired_seconds [] dir = dir
  expired_loop expired_seconds ((now, new) ∷ rounds) dir =
      let (ok, dir') = expired_once true now expired_seconds (dir ++ new) in
      let rest = expired_loop expired_seconds rounds dir' in
      if ok then rest else dir' ++ appear rounds

abbrev pub paths : List LogFile → List ℕ
paths = map (λ f. f.path)

contains-unlink :
    (p q : ℕ) (dir : List LogFile)
    → contains (paths (unlink p dir)) q ≡ (contains (paths dir) q && not (nat_beq p q))
unfolding unlink contains
contains-unlink p q [] = refl
contains-unlink p q (f ∷ fs) = ground (arith, contains-unlink p q fs)

abbrev pub all_deletable : (ℕ → Bool) → List ℕ → Bool
all_deletable deletable [] = true
all_deletable deletable (p ∷ ps) = deletable p && all_deletable deletable ps

module _ (deletable : ℕ → Bool) (q : ℕ) where
  delete_all-ok :
      (ps : List ℕ) (dir : List LogFile)
      → (delete_all deletable ps dir).0 ≡ all_deletable deletable ps
  unfolding delete_all
  delete_all-ok [] dir = refl
  delete_all-ok (p ∷ ps) dir = ground (arith, delete_all-ok ps (unlink p dir))

  delete_all-others :
      (ps : List ℕ) (dir : List LogFile)
      → (contains (paths (delete_all deletable ps dir).1) q || contains ps q)
        ≡ (contains (paths dir) q || contains ps q)
  unfolding delete_all contains
  delete_all-others [] dir = refl
  delete_all-others (p ∷ ps) dir =
      ground (arith, delete_all-others ps (unlink p dir), contains-unlink p q dir)

  delete_all-all :
      (ps : List ℕ) (dir : List LogFile)
      → (all_deletable deletable ps && contains (paths (delete_all deletable ps dir).1) q)
        ≡ (all_deletable deletable ps && (contains (paths dir) q && not (contains ps q)))
  unfolding delete_all contains
  delete_all-all [] dir = ground arith
  delete_all-all (p ∷ ps) dir =
      ground (arith, delete_all-all ps (unlink p dir), contains-unlink p q dir)

-- There is a task log under the path that is older than the limit.
abbrev pub expired_at : ℕ → ℕ → List LogFile → Bool
expired_at limit q [] = false
expired_at limit q (f ∷ fs) =
    nat_beq f.path q && (f.is_log && is_before limit f.ctime) || expired_at limit q fs

contains-scan :
    (limit q : ℕ) (dir : List LogFile)
    → contains (scan_expired_files limit dir) q ≡ expired_at limit q dir
unfolding scan_expired_files contains
contains-scan limit q [] = refl
contains-scan limit q (f ∷ fs) = elim (Bool-cases (f.is_log && is_before limit f.ctime)) [
  | inl e ↦ rw e (ground (arith, contains-scan limit q fs))
  | inr e ↦ rw e (ground (arith, contains-scan limit q fs))
]

-- One cleaning of the log directory, for every path `q`: it ends without an exception exactly when
-- every expired log can be deleted; whatever is no expired log is left; and without an exception no
-- expired log is left. After an exception the cleaning loop has ended: all that it left and all that
-- appears later stays.
pub expired_once_exact :
    (deletable : ℕ → Bool) (now seconds q : ℕ) (dir new : List LogFile)
    (rounds : List (ℕ × List LogFile))
    → let r = expired_once deletable true now seconds (dir ++ new) in
      let expired = expired_at (now - seconds) q (dir ++ new) in
      (r.0 ≡ all_deletable deletable (scan_expired_files (now - seconds) (dir ++ new)))
      × ((contains (paths r.1) q || expired) ≡ (contains (paths (dir ++ new)) q || expired))
      × ((r.0 && contains (paths r.1) q)
          ≡ (r.0 && (contains (paths (dir ++ new)) q && not expired)))
      × ((if r.0 then [] else expired_loop deletable seconds ((now, new) ∷ rounds) dir)
          ≡ (if r.0 then [] else r.1 ++ appear rounds))
unfolding expired_once expired_loop
expired_once_exact deletable now seconds q dir new rounds =
    let all = dir ++ new in
    let ps = scan_expired_files (now - seconds) all in
    let e = contains-scan (now - seconds) q all in
    let ok = delete_all-ok deletable q ps all in
    (
      ok,
      ap (λ b. contains (paths (delete_all deletable ps all).1) q || b) (sym e)
          ∙ delete_all-others deletable q ps all
          ∙ ap (λ b. contains (paths all) q || b) e,
      ap (λ b. b && contains (paths (delete_all deletable ps all).1) q) ok
          ∙ delete_all-all deletable q ps all
          ∙ ap (λ b. all_deletable deletable ps && (contains (paths all) q && not b)) e
          ∙ ap (λ b. b && (contains (paths all) q && not (expired_at (now - seconds) q all)))
              (sym ok),
      stops (delete_all deletable ps all).0 _ _,
    )
  where
    stops :
        (b : Bool) (x y : List LogFile)
        → (if b then [] else if b then x else y) ≡ (if b then [] else y)
    stops true x y = refl
    stops false x y = refl
