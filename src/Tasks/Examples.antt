-- ===== src/Tasks/Examples.antt =====
-- Tests and instances for background_tasks.py: two tasks, the first of which is more than a day old.
use tei_nlp_converter.Base.{
  ℕ, String, Option, ◌==◌, none, some, [], ◌∷◌, Dict, get, remove, string_key, leb, if◌then◌else◌,
  length, ◌≡◌, refl, IsDistinct,
}
use tei_nlp_converter.Tasks.{
  completed, Task, max_tasks, new_task, cleanup_old_tasks, create_task, update_task,
}
use tei_nlp_converter.Tasks.Store.{
  surviving, Updates, get-cleanup_old_tasks, get-create_task, get-update_task,
}

abbrev ancient : Task ℕ
ancient = new_task 5 "t1" 11

abbrev recent : Task ℕ
recent = new_task 86_400_000_000 "t2" 12

abbrev tasks : Dict String (Task ℕ)
tasks = ("t1", ancient) ∷ ("t2", recent) ∷ []

tasks-IsDistinct : IsDistinct tasks
unfolding get
tasks-IsDistinct = (refl, (refl, tt))

cleanup_run : cleanup_old_tasks 86_400_000_006 tasks ≡ ("t2", recent) ∷ []
unfolding cleanup_old_tasks new_task remove
cleanup_run = refl

get-cleanup_old_tasks_example :
    get "t1" (cleanup_old_tasks 86_400_000_006 tasks) ≡ surviving 86_400_000_006 (get "t1" tasks)
get-cleanup_old_tasks_example = get-cleanup_old_tasks 86_400_000_006 "t1" tasks tasks-IsDistinct

get-create_task_example :
    get "t2" (create_task 7 8 "t3" 13 tasks)
    ≡ (if leb max_tasks (length tasks) then surviving 7 (get "t2" tasks) else get "t2" tasks)
get-create_task_example = get-create_task 7 8 "t3" "t2" 13 tasks tasks-IsDistinct

get-update_task_example :
    (o : Option (Task ℕ)) × Updates 9 completed (some 14) none (get "t2" tasks) o
    × ((k : String)
        → get k (update_task 9 "t2" completed (some 14) none tasks)
          ≡ (if "t2" == k then o else get k tasks))
get-update_task_example = get-update_task 9 "t2" completed (some 14) none tasks
