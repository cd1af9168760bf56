-- ===== src/Runtime/Callbacks/Ledger.antt =====
-- The files of the store: each request that has a path owns it, and what is saved stays saved when
-- other requests are written.
use pyxxl.Base.{
  ℕ, suc, ◌+◌, ◌≤◌, ◌≡◌, ap, Bool, true, Option, none, some, List, [], ◌∷◌, ◌++◌, All, get, nat_beq,
  arith, if◌then◌else◌, nat_eq, set, keys, Dict, count, get-set, count-keys-set, get-remove,
  count-keys-remove, remove, All-append,
}
use pyxxl.Runtime.Callbacks.State.{Request, File, Manager, saved, write_file}

-- One where the request's path is `p`.
abbrev pub path_hit : ℕ → Option ℕ → ℕ
path_hit p none = 0
path_hit p (some q) = if nat_beq q p then 1 else 0

-- How many of the requests have the path `p`.
abbrev pub uses : ℕ → List Request → ℕ
uses p [] = 0
uses p (r ∷ rs) = path_hit p r.persisted_path + uses p rs

pub uses-append : (p : ℕ) (rs ss : List Request) → uses p (rs ++ ss) ≡ uses p rs + uses p ss
uses-append p [] ss = omega arith
uses-append p (r ∷ rs) ss = omega (arith, uses-append p rs ss)

abbrev pub at_path : ℕ → Request → Request
at_path p r = record r { persisted_path = some p }

-- The store has the request's present text under its path.
pub record IsSaved (store : Dict ℕ File) (r : Request) : Type 0 where
  pub path : ℕ
  pub own : r.persisted_path ≡ some path
  pub text : get store path ≡ some (saved r)

-- The requests `done` are saved, others use a path so often as `extra` says, and no path is used
-- twice; the names from `next_path` on are new.
pub record IsLedger (writable : ℕ → Bool) (store : Dict ℕ File) (next_path : ℕ)
    (done : List Request) (extra : ℕ → ℕ) : Type 0 where
  pub writes : (p : ℕ) → writable p ≡ true
  pub once : (p : ℕ) → uses p done + extra p ≤ 1
  pub fresh : (p : ℕ) → next_path ≤ p → uses p done + extra p ≡ 0
  pub are_saved : All (IsSaved store) done
  pub stored_once : (p : ℕ) → count p (keys store) ≤ 1
  pub stored_fresh : (p : ℕ) → next_path ≤ p → count p (keys store) ≡ 0

abbrev pub Ledger : Manager → List Request → (ℕ → ℕ) → Type 0
Ledger m done extra = IsLedger m.writable m.store m.next_path done extra

-- Writing a file leaves what is saved under other paths.
set-IsSaved :
    (store : Dict ℕ File) (q : ℕ) (f : File) (r : Request)
    → path_hit q r.persisted_path ≡ 0
    → IsSaved store r
    → IsSaved (set store q f) r
set-IsSaved store q f r h s = record {
  path = s.path;
  own = s.own;
  text = ground (arith, get-set store q s.path f, s.text, ap (path_hit q) s.own, h);
}

set-All :
    (store : Dict ℕ File) (q : ℕ) (f : File) (rs : List Request)
    → uses q rs ≡ 0
    → All (IsSaved store) rs
    → All (IsSaved (set store q f)) rs
set-All store q f [] h s = tt
set-All store q f (r ∷ rs) h s =
    (set-IsSaved store q f r (omega (arith, h)) s.0, set-All store q f rs (omega (arith, h)) s.1)

-- With fewer uses and more names given out the ledger still holds.
pub IsLedger-mono :
    {writable : ℕ → Bool} {store : Dict ℕ File} {done : List Request} {n : ℕ} (n' : ℕ)
    {extra : ℕ → ℕ} (extra' : ℕ → ℕ)
    → n ≤ n'
    → ((p : ℕ) → extra' p ≤ extra p)
    → IsLedger writable store n done extra
    → IsLedger writable store n' done extra'
IsLedger-mono n' extra' le fewer l = record {
  writes = l.writes;
  once = λ p. omega (arith, l.once p, fewer p);
  fresh = λ p h. omega (arith, l.fresh p (omega (arith, h, le)), fewer p);
  are_saved = l.are_saved;
  stored_once = l.stored_once;
  stored_fresh = λ p h. l.stored_fresh p (omega (arith, h, le));
}

module _ (m : Manager) (done : List Request) (extra : ℕ → ℕ) where
  -- Writing the request under a path that only it uses.
  pub write_file-Ledger :
      (r : Request) (q : ℕ)
      → r.persisted_path ≡ some q
      → (n : ℕ) → m.next_path ≤ n
      → suc q ≤ n
      → uses q done + extra q ≡ 0
      → Ledger m done extra
      → Ledger (record (write_file m q (saved r)) { next_path = n }) (r ∷ done) extra
  unfolding write_file
  write_file-Ledger r q own n le lt free l = rw (l.writes q) record {
    writes = l.writes;
    once = λ p. ground (arith, l.once p, own);
    fresh = λ p h. ground (arith, l.fresh p, own);
    are_saved = (
      record { path = q; own = own; text = ground (arith, get-set m.store q q (saved r)) },
      set-All m.store q (saved r) done (omega (arith, free)) l.are_saved,
    );
    stored_once = λ p. ground (arith, l.stored_once p, count-keys-set p q (saved r) m.store);
    stored_fresh = λ p h. ground (arith, l.stored_fresh p, count-keys-set p q (saved r) m.store);
  }

-- A saved request that is no longer among `done` still uses its path.
pub IsLedger-take :
    {writable : ℕ → Bool} {store : Dict ℕ File} {done : List Request} {n : ℕ} {extra : ℕ → ℕ}
    (r : Request)
    → IsLedger writable store n (r ∷ done) extra
    → IsLedger writable store n done (λ p. path_hit p r.persisted_path + extra p)
IsLedger-take r l = record {
  writes = l.writes;
  once = λ p. omega (arith, l.once p);
  fresh = λ p h. omega (arith, l.fresh p h);
  are_saved = l.are_saved.1;
  stored_once = l.stored_once;
  stored_fresh = l.stored_fresh;
}

-- The newest may stand last.
pub IsLedger-rotate :
    {writable : ℕ → Bool} {store : Dict ℕ File} {done : List Request} {n : ℕ} {extra : ℕ → ℕ}
    (r : Request)
    → IsLedger writable store n (r ∷ done) extra
    → IsLedger writable store n (done ++ r ∷ []) extra
IsLedger-rotate {done = done} r l = record {
  writes = l.writes;
  once = λ p. omega (arith, l.once p, uses-append p done (r ∷ []));
  fresh = λ p h. omega (arith, l.fresh p h, uses-append p done (r ∷ []));
  are_saved = All-append _ done (r ∷ []) l.are_saved.1 (l.are_saved.0, tt);
  stored_once = l.stored_once;
  stored_fresh = l.stored_fresh;
}

-- When no saved request is kept track of, no text of the store matters.
pub IsLedger-none :
    {writable : ℕ → Bool} {store : Dict ℕ File} {done : List Request} {n : ℕ} {extra : ℕ → ℕ}
    → IsLedger writable store n done extra
    → IsLedger writable store n [] extra
IsLedger-none l = record {
  writes = l.writes;
  once = λ p. omega (arith, l.once p);
  fresh = λ p h. omega (arith, l.fresh p h);
  are_saved = tt;
  stored_once = l.stored_once;
  stored_fresh = l.stored_fresh;
}

remove-All :
    (store : Dict ℕ File) (q : ℕ) (rs : List Request)
    → uses q rs ≡ 0
    → All (IsSaved store) rs
    → All (IsSaved (remove store q)) rs
remove-All store q [] h s = tt
remove-All store q (r ∷ rs) h s = (
  record {
    path = s.0.path;
    own = s.0.own;
    text = ground (arith, get-remove store q s.0.path, s.0.text, ap (path_hit q) s.0.own, h);
  },
  remove-All store q rs (omega (arith, h)) s.1,
)

-- Removing a file that no saved request owns.
pub IsLedger-remove :
    {writable : ℕ → Bool} {store : Dict ℕ File} {done : List Request} {n : ℕ} {extra : ℕ → ℕ}
    (q : ℕ)
    → uses q done ≡ 0
    → IsLedger writable store n done extra
    → IsLedger writable (remove store q) n done extra
IsLedger-remove {store = store} {done = done} q h l = record {
  writes = l.writes;
  once = l.once;
  fresh = l.fresh;
  are_saved = remove-All store q done h l.are_saved;
  stored_once = λ p. ground (arith, l.stored_once p, count-keys-remove p q store);
  stored_fresh = λ p g. ground (arith, l.stored_fresh p g, count-keys-remove p q store);
}
