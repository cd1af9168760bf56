-- ===== src/Runtime/Callbacks/State.antt =====
-- pyxxl/runtime/callbacks.py: what `CallbackManager` keeps, and its operations. A path of the store
-- is a number; `next_path` is the number behind all names that `uuid4` gave out.
use pyxxl.Base.{
  ℕ, suc, ◌-◌, String, Bool, true, false, Option, none, some, List, [], ◌∷◌, ◌++◌, Dict, get, set,
  remove, keys, ◌||◌, leb, nat_eq, nat_beq, if◌then◌else◌,
}

-- `CallbackRequest`
pub record Request : Type 0 where
  pub log_id : ℕ
  pub timestamp : ℕ
  pub code : ℕ
  pub msg : Option String
  pub attempts : ℕ
  pub persisted_path : Option ℕ

-- A file of the store: the JSON text of `asdict(request)`, or one that does not load.
pub data File : Type 0 where
  saved : Request → File
  damaged : File

pub record Manager : Type 0 where
  -- the paths whose files can be written and deleted
  pub writable : ℕ → Bool
  pub queue : List Request
  -- the request for which the worker awaits the admin
  pub in_flight : Option Request
  -- there is a worker task that is not done
  pub worker : Bool
  -- the requests of the retry tasks, oldest first
  pub retry_tasks : List Request
  pub pending : ℕ
  pub pending_empty : Bool
  pub closed : Bool
  pub started : Bool
  pub store : Dict ℕ File
  pub next_path : ℕ

-- _ensure_worker
unfoldable pub ensure_worker : Manager → Manager
ensure_worker m = if m.worker then m else record m { worker = true }

-- _queue_request
unfoldable pub queue_request : Manager → Request → Manager
unfolding ensure_worker
queue_request m r =
    let m₁ = ensure_worker (record m { pending = suc m.pending; pending_empty = false }) in
    record m₁ { queue = m₁.queue ++ r ∷ [] }

-- _load_request_from_file
unfoldable pub load_request_from_file : ℕ → Option File → Option Request
load_request_from_file path none = none
load_request_from_file path (some damaged) = none
load_request_from_file path (some (saved r)) = some (record r { persisted_path = some path })

unfoldable pub write_file : Manager → ℕ → File → Manager
write_file m path f = if m.writable path then record m { store = set m.store path f } else m

unfoldable pub delete_file : Manager → ℕ → Manager
delete_file m path = if m.writable path then record m { store = remove m.store path } else m

-- one round of the loop of _replay_persisted_requests; `unlink` of a file that does not load is
-- taken to succeed
unfoldable pub replay_one : Manager → ℕ → Option Request → Manager
replay_one m path none = record m { store = remove m.store path }
replay_one m path (some r) = queue_request m r

-- the loop of _replay_persisted_requests
unfoldable pub replay_paths : Manager → List ℕ → Manager
replay_paths m [] = m
replay_paths m (path ∷ paths) =
    replay_paths (replay_one m path (load_request_from_file path (get m.store path))) paths

-- `sorted`
unfoldable pub insert_path : ℕ → List ℕ → List ℕ
insert_path p [] = p ∷ []
insert_path p (q ∷ qs) = let rest = insert_path p qs in if leb p q then p ∷ q ∷ qs else q ∷ rest

unfoldable pub sorted : List ℕ → List ℕ
sorted [] = []
sorted (p ∷ ps) = insert_path p (sorted ps)

-- _replay_persisted_requests
unfoldable pub replay_persisted_requests : Manager → Manager
unfolding replay_paths
replay_persisted_requests m = replay_paths m (sorted (keys m.store))

-- start
unfoldable pub start : Manager → Manager
start m = if m.started then m else replay_persisted_requests (record m { started = true })

-- enqueue
unfoldable pub enqueue : Manager → Request → Manager
enqueue m r = if m.closed then m else queue_request (start m) r

-- `if request.persisted_path: ... else: ...`: the path of a request, given one where it has none
unfoldable pub give_path : Manager → Request → Option ℕ → ℕ × Request × Manager
give_path m r (some path) = (path, r, m)
give_path m r none = (
  m.next_path,
  record r { persisted_path = some m.next_path },
  record m { next_path = suc m.next_path },
)

-- _persist_request, with the request as it leaves it
unfoldable pub persist_request : Manager → Request → Request × Manager
unfolding give_path
persist_request m r =
    let (path, r₁, m₁) = give_path m r r.persisted_path in (r₁, write_file m₁ path (saved r₁))

-- _delete_persisted_request, of the path that the request has
unfoldable pub delete_persisted_request : Manager → Option ℕ → Manager
delete_persisted_request m none = m
delete_persisted_request m (some path) = delete_file m path

-- _mark_completed
unfoldable pub mark_completed : Manager → Manager
mark_completed m =
    let left = m.pending - 1 in
    record m { pending = left; pending_empty = m.pending_empty || nat_beq left 0 }
