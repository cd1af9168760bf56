-- ===== src/Runtime/Callbacks/Persist.antt =====
-- `_persist_request` and the loops that call it: what they are given is in the store afterwards,
-- and what was there stays.
use pyxxl.Base.{
  ℕ, suc, ◌+◌, ◌≡◌, refl, sym, subst, ◌⊎◌, inl, inr, Option, none, some, List, [], ◌∷◌, All, arith,
  nat_eq,
}
use pyxxl.Runtime.Callbacks.State.{
  Request, File, Manager, saved, give_path, persist_request, write_file,
}
use pyxxl.Runtime.Callbacks.Worker.{persist_all}
use pyxxl.Runtime.Callbacks.Ledger.{
  path_hit, uses, at_path, IsLedger, Ledger, IsLedger-mono, write_file-Ledger,
}

-- What _persist_request makes of `r`: the same request, with a path, saved besides the others.
pub record IsPersisted (done : List Request) (extra : ℕ → ℕ) (r : Request) (out : Request × Manager)
    : Type 0 where
  pub ledger : Ledger out.1 (out.0 ∷ done) extra
  pub path : ℕ
  pub same : out.0 ≡ at_path path r

write_file-next_path : (m : Manager) (q : ℕ) (f : File) → (write_file m q f).next_path ≡ m.next_path
unfolding write_file
write_file-next_path m q f = ground arith

pub persist_request-IsPersisted :
    (m : Manager) (done : List Request) (extra : ℕ → ℕ) (r : Request) (o : Option ℕ)
    → r.persisted_path ≡ o
    → Ledger m done (λ p. path_hit p o + extra p)
    → IsPersisted done extra r
        (let (path, r₁, m₁) = give_path m r o in (r₁, write_file m₁ path (saved r₁)))
unfolding give_path
persist_request-IsPersisted m done extra r none e l = record {
  ledger =
      subst
        (λ n.
          IsLedger (write_file m' m.next_path (saved r')).writable
            (write_file m' m.next_path (saved r')).store n (r' ∷ done) extra)
        (sym (write_file-next_path m' m.next_path (saved r')))
        (write_file-Ledger m' done extra r' m.next_path refl (suc m.next_path) (omega arith)
          (omega arith) (omega (arith, l.fresh m.next_path (omega arith)))
          (IsLedger-mono (suc m.next_path) extra (omega arith) (λ p. omega arith) l));
  path = m.next_path;
  same = refl;
}
  where
    m' : Manager
    m' = record m { next_path = suc m.next_path }

    r' : Request
    r' = at_path m.next_path r
persist_request-IsPersisted m done extra r (some q) e l = record {
  ledger =
      subst
        (λ n.
          IsLedger (write_file m q (saved r)).writable (write_file m q (saved r)).store n (r ∷ done)
            extra)
        (sym (write_file-next_path m q (saved r)))
        (write_file-Ledger m done extra r q e m.next_path (omega arith) (ground (arith, l.fresh q))
          (ground (arith, l.once q))
          (IsLedger-mono m.next_path extra (omega arith) (λ p. omega arith) l));
  path = q;
  same = λ i. record r { persisted_path = e i };
}

-- The request is among them.
abbrev pub IsIn : Request → List Request → Type 0
IsIn r [] = ⊥
IsIn r (x ∷ xs) = (x ≡ r) ⊎ IsIn r xs

-- The request, under some path, is among them.
pub record IsFound (done : List Request) (r : Request) : Type 0 where
  pub path : ℕ
  pub among : IsIn (at_path path r) done

pub IsFound-later :
    (x : Request) (done rs : List Request) → All (IsFound done) rs → All (IsFound (x ∷ done)) rs
IsFound-later x done [] h = tt
IsFound-later x done (r ∷ rs) h =
    (record { path = h.0.path; among = inr h.0.among }, IsFound-later x done rs h.1)

-- What the loops leave: the ledger of what is saved now, in which all that was found before is
-- found, and each of `rs`.
pub record IsKept (m : Manager) (done : List Request) (extra : ℕ → ℕ) (before rs : List Request)
    : Type 0 where
  pub now_done : List Request
  pub ledger : Ledger m now_done extra
  pub old : All (IsFound now_done) before
  pub new : All (IsFound now_done) rs

pub persist_all-IsKept :
    (m : Manager) (done : List Request) (extra : ℕ → ℕ) (before rs : List Request)
    → Ledger m done (λ p. uses p rs + extra p)
    → All (IsFound done) before
    → IsKept (persist_all m rs) done extra before rs
unfolding persist_all persist_request
persist_all-IsKept m done extra before [] l b = record {
  now_done = done;
  ledger = IsLedger-mono m.next_path extra (omega arith) (λ p. omega arith) l;
  old = b;
  new = tt;
}
persist_all-IsKept m done extra before (r ∷ rest) l b =
    let s =
      persist_request-IsPersisted (record m { queue = rest }) done (λ p. uses p rest + extra p) r
        r.persisted_path refl (IsLedger-mono m.next_path _ (omega arith) (λ p. omega arith) l) in
    let out = persist_request (record m { queue = rest }) r in
    let k =
      persist_all-IsKept out.1 (out.0 ∷ done) extra (r ∷ before) rest s.ledger
        (record { path = s.path; among = inl s.same }, IsFound-later out.0 done before b) in
    record { now_done = k.now_done; ledger = k.ledger; old = k.old.1; new = (k.old.0, k.new) }
