-- ===== src/Tasks.antt =====
-- background_tasks.py: the tasks of the service. Times are microseconds; `now` is what
-- `datetime.utcnow()` returns. Nobody but the manager changes the object of a task.
pub mod Store
mod Examples
use tei_nlp_converter.Base.{
  ℕ, ◌+◌, ◌*◌, String, Bool, true, false, Option, none, some, List, [], ◌∷◌, Dict, get, put, remove,
  string_key, leb, ltb, if◌then◌else◌, length,
}

pub data TaskStatus : Type 0 where
  pending processing completed failed cancelled : TaskStatus

-- `data` and `result` are dictionaries that are stored as they are.
pub record Task {ℓ} (D : Type ℓ) : Type ℓ where
  pub id : String
  pub status : TaskStatus
  pub data_in : D
  pub result : Option D
  pub error : Option String
  pub created_at : ℕ
  pub started_at : Option ℕ
  pub completed_at : Option ℕ

abbrev pub max_tasks : ℕ
max_tasks = 1000

-- a day
abbrev pub task_ttl : ℕ
task_ttl = 24 * 3600 * 1_000_000

-- `created_at < now - task_ttl`
abbrev pub is_old {ℓ} : {D : Type ℓ} → ℕ → Task D → Bool
is_old now t = ltb (t.created_at + task_ttl) now

module _ {ℓ} {D : Type ℓ} where
  pub new_task : ℕ → String → D → Task D
  new_task now task_id input = record {
    id = task_id;
    status = pending;
    data_in = input;
    result = none;
    error = none;
    created_at = now;
    started_at = none;
    completed_at = none;
  }

  old_tasks : ℕ → Dict String (Task D) → List String
  old_tasks now [] = []
  old_tasks now ((k, t) ∷ d) = let rest = old_tasks now d in if is_old now t then k ∷ rest else rest

  remove_all : List String → Dict String (Task D) → Dict String (Task D)
  remove_all [] d = d
  remove_all (k ∷ ks) d = remove_all ks (remove k d)

  pub cleanup_old_tasks : ℕ → Dict String (Task D) → Dict String (Task D)
  unfolding old_tasks remove_all
  cleanup_old_tasks now tasks = remove_all (old_tasks now tasks) tasks

  -- `now` is the time of a cleanup, `now'` that of the new task.
  pub create_task : ℕ → ℕ → String → D → Dict String (Task D) → Dict String (Task D)
  unfolding cleanup_old_tasks new_task
  create_task now now' task_id input tasks =
      let room = if leb max_tasks (length tasks) then cleanup_old_tasks now tasks else tasks in
      put task_id (new_task now' task_id input) room

  -- What `update_task` does to a task that is there.
  pub updated : ℕ → TaskStatus → Option D → Option String → Task D → Task D
  updated now pending result error t = record t { status = pending }
  updated now processing result error t = record t { status = processing; started_at = some now }
  updated now status result error t = record t {
    status = status;
    completed_at = some now;
    result = result;
    error = error;
  }

  pub update_task :
      ℕ
      → String
      → TaskStatus
      → Option D
      → Option String
      → Dict String (Task D)
      → Dict String (Task D)
  unfolding updated
  update_task now task_id status result error tasks = elim (get task_id tasks) [
    | none ↦ tasks
    | some t ↦ put task_id (updated now status result error t) tasks
  ]
