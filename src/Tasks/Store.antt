-- ===== src/Tasks/Store.antt =====
-- What is found under a task's id after each operation.
use tei_nlp_converter.Base.{
  ℕ, String, Bool, true, false, Option, none, some, List, [], ◌∷◌, Dict, get, remove, string_key,
  ◌==◌, leb, if◌then◌else◌, length, ◌≡◌, refl, ◌∙◌, arith, Bool-cases, Option-cases, inl, inr,
  get-put, get-remove, IsDistinct, IsDistinct-remove,
}
use tei_nlp_converter.Tasks.{
  TaskStatus, pending, processing, completed, failed, cancelled, Task, max_tasks, is_old, new_task,
  old_tasks, remove_all, cleanup_old_tasks, create_task, updated, update_task,
}

-- The statuses with which a task ends.
unfoldable pub ends : TaskStatus → Bool
ends pending = false
ends processing = false
ends completed = true
ends failed = true
ends cancelled = true

unfoldable pub begins : TaskStatus → Bool
begins processing = true
begins status = false

listed : String → List String → Bool
listed k [] = false
listed k (j ∷ js) = if j == k then true else listed k js

module _ {ℓ} {D : Type ℓ} where
  get-remove_all :
      (k : String) (ks : List String) (d : Dict String (Task D))
      → IsDistinct d
      → get k (remove_all ks d) ≡ (if listed k ks then none else get k d)
  unfolding remove_all listed
  get-remove_all k [] d h = refl
  get-remove_all k (j ∷ js) d h =
      ground (arith, get-remove_all k js (remove j d) (IsDistinct-remove j d h), get-remove j k d h)

  -- What a cleanup leaves of a task: all of it, unless the task is older than a day.
  pub surviving : ℕ → Option (Task D) → Option (Task D)
  surviving now none = none
  surviving now (some t) = if is_old now t then none else some t

  old_or_missing : ℕ → Option (Task D) → Bool
  old_or_missing now none = false
  old_or_missing now (some t) = is_old now t

  listed-old_tasks :
      (now : ℕ) (k : String) (d : Dict String (Task D))
      → IsDistinct d
      → listed k (old_tasks now d) ≡ old_or_missing now (get k d)
  unfolding old_tasks listed old_or_missing get
  listed-old_tasks now k [] h = refl
  listed-old_tasks now k ((j, t) ∷ d) h =
      ground (arith, h.0, listed-old_tasks now k d h.1, string_key.same_iff j k)

  -- After a cleanup, a task is found as before if it is not older than a day; an older one is not found.
  pub get-cleanup_old_tasks :
      (now : ℕ) (k : String) (tasks : Dict String (Task D))
      → IsDistinct tasks
      → get k (cleanup_old_tasks now tasks) ≡ surviving now (get k tasks)
  unfolding cleanup_old_tasks surviving old_or_missing
  get-cleanup_old_tasks now k tasks h =
      get-remove_all k (old_tasks now tasks) tasks h
      ∙ rw (listed-old_tasks now k tasks h) (by_task (get k tasks))
    where
      by_task : (o : Option (Task D)) → (if old_or_missing now o then none else o) ≡ surviving now o
      by_task none = refl
      by_task (some t) = refl

  -- After `create_task`, the new task is found under its id; another one as before, except that the
  -- tasks older than a day are dropped if there were as many as `max_tasks`.
  pub get-create_task :
      (now now' : ℕ) (task_id k : String) (input : D) (tasks : Dict String (Task D))
      → IsDistinct tasks
      → get k (create_task now now' task_id input tasks) ≡ (
          if task_id == k
          then some (new_task now' task_id input)
          else if leb max_tasks (length tasks)
          then surviving now (get k tasks)
          else get k tasks)
  unfolding create_task
  get-create_task now now' task_id k input tasks h =
      elim (Bool-cases (leb max_tasks (length tasks))) [
        | inl full ↦
            rw (create_task, full)
              (rw
                (
                  get-put task_id k (new_task now' task_id input) (cleanup_old_tasks now tasks),
                  get-cleanup_old_tasks now k tasks h,
                )
                refl)
        | inr room ↦
            rw (create_task, room) (rw (get-put task_id k (new_task now' task_id input) tasks) refl)
      ]

  -- The fields of a task before and after an update to a status at a time.
  pub record IsUpdate (now : ℕ) (status : TaskStatus) (result : Option D) (error : Option String)
      (before after : Task D) : Type ℓ where
    pub same_id : after.id ≡ before.id
    pub same_data : after.data_in ≡ before.data_in
    pub same_creation : after.created_at ≡ before.created_at
    pub at_status : after.status ≡ status
    pub start : after.started_at ≡ (if begins status then some now else before.started_at)
    pub completion : after.completed_at ≡ (if ends status then some now else before.completed_at)
    pub outcome : after.result ≡ (if ends status then result else before.result)
    pub failure : after.error ≡ (if ends status then error else before.error)

  -- A task that is missing stays missing, one that is there is updated.
  abbrev pub Updates :
      ℕ → TaskStatus → Option D → Option String → Option (Task D) → Option (Task D) → Type ℓ
  Updates now status result error none o = o ≡ none
  Updates now status result error (some t) o =
      (t' : Task D) × (o ≡ some t') × IsUpdate now status result error t t'

  updated-IsUpdate :
      (now : ℕ) (status : TaskStatus) (result : Option D) (error : Option String) (t : Task D)
      → IsUpdate now status result error t (updated now status result error t)
  unfolding updated begins ends
  updated-IsUpdate now pending result error t = ground arith
  updated-IsUpdate now processing result error t = ground arith
  updated-IsUpdate now completed result error t = ground arith
  updated-IsUpdate now failed result error t = ground arith
  updated-IsUpdate now cancelled result error t = ground arith

  -- After `update_task`, the task with this id, if there is one, has the new status and the same id, data
  -- and creation time. Its start time is now for PROCESSING, else as before; its completion time is now and
  -- its result and error are the given ones for COMPLETED, FAILED and CANCELLED, else they are as before.
  -- Every other task is as before, and none is added.
  pub get-update_task :
      (now : ℕ) (task_id : String) (status : TaskStatus) (result : Option D) (error : Option String)
      (tasks : Dict String (Task D))
      → (o : Option (Task D)) × Updates now status result error (get task_id tasks) o
        × ((k : String)
            → get k (update_task now task_id status result error tasks)
              ≡ (if task_id == k then o else get k tasks))
  unfolding update_task
  get-update_task now task_id status result error tasks = elim (Option-cases (get task_id tasks)) [
    | inl nothing ↦ (
      none,
      rw nothing refl,
      λ k.
          rw (update_task, nothing)
            (elim (Bool-cases (task_id == k)) [
              | inl same ↦ rw same (rw (← (string_key.same_iff task_id k).0 same) nothing)
              | inr other ↦ rw other refl
            ]),
    )
    | inr (t, found) ↦ (
      some (updated now status result error t),
      rw found
          (updated now status result error t, refl, updated-IsUpdate now status result error t),
      λ k. rw (update_task, found) (get-put task_id k (updated now status result error t) tasks),
    )
  ]
