-- ===== src/Downloads.antt =====
-- FUND-120/4_ClientServerLab/mtgf/gfclient_download.c: the main thread puts the requests into the
-- shared steque, and worker threads take them out. Every interleaving of the threads is a sequence
-- of steps. The steque is the list that Steque.Refine relates it to; a request is the address of its
-- path.
pub mod Counts
pub mod Invariant
pub mod Preserve
pub mod Safety
pub mod Progress
pub mod Measure
mod Tests
use cohere_technology_skillb.Prelude.{
  ℕ, zero, suc, ◌+◌, ◌%◌, ◌^◌, ◌≤◌, ◌<◌, ◌≡◌, Bool, true, false, some, List, [], ◌∷◌, ◌++◌, length,
  get_elem?,
}
use cohere_technology_skillb.Memory.{Ptr}
use cohere_technology_skillb.Steque.Deque.{enqueue, pop, call}

-- The part of WebClient that the threads share, and the static counter of localPath. `taken` is the
-- history of the requests that have been popped.
pub record Shared : Type 0 where
  pub mutex : Bool
  pub queue : List Ptr
  pub counter : ℕ
  pub taken : List Ptr

-- Where a worker stands in requestHandler; `left` are the rounds of its loop behind this one.
pub data Pc : Type 0 where
  ready : (rounds : ℕ) → Pc
  checking : (left : ℕ) → Pc
  waiting : (left : ℕ) → Pc
  woken : (left : ℕ) → Pc
  popped : (left : ℕ) → Ptr → Pc
  fetched : (left : ℕ) → Ptr → Pc
  named : (left : ℕ) → Ptr → (number : ℕ) → Pc
  downloading : (left : ℕ) → Ptr → (number : ℕ) → Pc
  finished : Pc

-- One step of a worker. localPath reads the counter and writes it in two steps, since no mutex is
-- held; gfc_perform and the file are the worker's own.
pub data Move (m : Shared) : Pc → Shared → Pc → Type 0 where
  acquire :
      {r : ℕ} → m.mutex ≡ false → Move m (ready (suc r)) (record m { mutex = true }) (checking r)
  leave : Move m (ready zero) m finished
  wait : {r : ℕ} → m.queue ≡ [] → Move m (checking r) (record m { mutex = false }) (waiting r)
  wake : {r : ℕ} → m.mutex ≡ false → Move m (woken r) (record m { mutex = true }) (checking r)
  take_path :
      {r : ℕ} {p : Ptr} {q : List Ptr}
      → call pop m.queue ≡ some (q, p ∷ [])
      → Move m (checking r) (record m { queue = q; taken = m.taken ++ (p ∷ []) }) (popped r p)
  release : {r : ℕ} {p : Ptr} → Move m (popped r p) (record m { mutex = false }) (fetched r p)
  read_counter : {r : ℕ} {p : Ptr} → Move m (fetched r p) m (named r p m.counter)
  write_counter :
      {r c : ℕ} {p : Ptr}
      → Move m (named r p c) (record m { counter = (c + 1) % 2 ^ 32 }) (downloading r p c)
  download : {r c : ℕ} {p : Ptr} → Move m (downloading r p c) m (ready r)

-- Where main stands: the threads still to create, the requests that workload_get_path has still to
-- give, or the next thread to join. `done` is the return, `ended` the end by exit in any thread.
pub data Main : Type 0 where
  creating : (left : ℕ) → Main
  preparing : (requests : List Ptr) → Main
  holding : Ptr → (requests : List Ptr) → Main
  enqueued : (requests : List Ptr) → Main
  signalled : (requests : List Ptr) → Main
  joining : (next : ℕ) → Main
  done : Main
  ended : (last : Main) → Main

pub record Client : Type 0 where
  pub shared : Shared
  pub workers : List Pc
  pub main : Main

abbrev pub is_waiting : Pc → Bool
is_waiting (waiting r) = true
is_waiting _ = false

-- No thread waits for the condition.
abbrev pub NoneWaits : List Pc → Type 0
NoneWaits [] = Unit
NoneWaits (p ∷ ps) = (is_waiting p ≡ false) × NoneWaits ps

-- The process has not ended.
abbrev pub is_running : Main → Bool
is_running done = false
is_running (ended last) = false
is_running _ = true

abbrev pub requests_of : List Ptr → Main → List Ptr
requests_of paths (creating left) = paths
requests_of paths (preparing rest) = rest
requests_of paths (holding p rest) = p ∷ rest
requests_of paths (enqueued rest) = rest
requests_of paths (signalled rest) = rest
requests_of paths (joining next) = []
requests_of paths done = []
requests_of paths (ended last) = requests_of paths last

-- One step of any thread. `num_requests` are the rounds of each worker, `paths` all the requests
-- that main prepares, and `strlen` the lengths of the paths.
pub data Step (strlen : Ptr → ℕ) (num_requests : ℕ) (paths : List Ptr) (s : Client)
    : Client → Type 0 where
  create :
      {left : ℕ}
      → s.main ≡ creating (suc left)
      → Step strlen num_requests paths s
          (record s { workers = s.workers ++ (ready num_requests ∷ []); main = creating left })
  begin :
      s.main ≡ creating zero
      → Step strlen num_requests paths s (record s { main = preparing paths })
  too_long :
      {p : Ptr} {rest : List Ptr}
      → s.main ≡ preparing (p ∷ rest)
      → 256 < strlen p
      → Step strlen num_requests paths s (record s { main = ended (s.main) })
  main_lock :
      {p : Ptr} {rest : List Ptr}
      → s.main ≡ preparing (p ∷ rest)
      → strlen p ≤ 256
      → s.shared.mutex ≡ false
      → Step strlen num_requests paths s
          (record s { shared = record (s.shared) { mutex = true }; main = holding p rest })
  main_enqueue :
      {p : Ptr} {rest q : List Ptr}
      → s.main ≡ holding p rest
      → call (enqueue p) s.shared.queue ≡ some (q, [])
      → Step strlen num_requests paths s
          (record s { shared = record (s.shared) { queue = q }; main = enqueued rest })
  signal :
      {rest : List Ptr} (r : ℕ) (xs ys : List Pc)
      → s.main ≡ enqueued rest
      → s.workers ≡ xs ++ (waiting r ∷ ys)
      → Step strlen num_requests paths s
          (record s { workers = xs ++ (woken r ∷ ys); main = signalled rest })
  signal_none :
      {rest : List Ptr}
      → s.main ≡ enqueued rest
      → NoneWaits s.workers
      → Step strlen num_requests paths s (record s { main = signalled rest })
  main_unlock :
      {rest : List Ptr}
      → s.main ≡ signalled rest
      → Step strlen num_requests paths s
          (record s { shared = record (s.shared) { mutex = false }; main = preparing rest })
  prepared :
      s.main ≡ preparing [] → Step strlen num_requests paths s (record s { main = joining 0 })
  join :
      {next : ℕ}
      → s.main ≡ joining next
      → get_elem? s.workers next ≡ some finished
      → Step strlen num_requests paths s (record s { main = joining (suc next) })
  clean_up :
      {next : ℕ}
      → s.main ≡ joining next
      → next ≡ length s.workers
      → Step strlen num_requests paths s (record s { main = done })
  work :
      {p p' : Pc} {m : Shared} (xs ys : List Pc)
      → is_running s.main ≡ true
      → s.workers ≡ xs ++ (p ∷ ys)
      → Move s.shared p m p'
      → Step strlen num_requests paths s (record s { shared = m; workers = xs ++ (p' ∷ ys) })
  open_fails :
      (r c : ℕ) (p : Ptr) (xs ys : List Pc)
      → is_running s.main ≡ true
      → s.workers ≡ xs ++ (downloading r p c ∷ ys)
      → Step strlen num_requests paths s (record s { main = ended (s.main) })

-- pthread_cond_wait may return with no signal.
pub data Spurious (s : Client) : Client → Type 0 where
  spurious :
      (r : ℕ) (xs ys : List Pc)
      → is_running s.main ≡ true
      → s.workers ≡ xs ++ (waiting r ∷ ys)
      → Spurious s (record s { workers = xs ++ (woken r ∷ ys) })

-- main before the first pthread_create.
abbrev pub initial : ℕ → Client
initial num_threads = record {
  shared = record { mutex = false; queue = []; counter = 0; taken = [] };
  workers = [];
  main = creating num_threads;
}

pub data Reach (strlen : Ptr → ℕ) (num_requests num_threads : ℕ) (paths : List Ptr)
    : Client → Type 0 where
  start : Reach strlen num_requests num_threads paths (initial num_threads)
  later :
      {s t : Client}
      → Reach strlen num_requests num_threads paths s
      → Step strlen num_requests paths s t
      → Reach strlen num_requests num_threads paths t
  unprompted :
      {s t : Client}
      → Reach strlen num_requests num_threads paths s
      → Spurious s t
      → Reach strlen num_requests num_threads paths t

-- A run of `k` steps without a spurious wake-up.
pub data Run (strlen : Ptr → ℕ) (num_requests : ℕ) (paths : List Ptr) (s : Client)
    : (k : ℕ) → Client → Type 0 where
  stay : Run strlen num_requests paths s zero s
  go :
      {k : ℕ} {t u : Client}
      → Run strlen num_requests paths s k t
      → Step strlen num_requests paths t u
      → Run strlen num_requests paths s (suc k) u
