-- ===== src/Drive/Keeping/Across.antt =====
-- The tasks of moves keep what each change of the tables keeps.
use orbit_cloud.Base.{
  ℕ, ◌+◌, ◌==◌, if◌then◌else◌, true, false, Option, none, some, Bool, List, [], ◌∷◌,
}
use orbit_cloud.Base.Errors.{Result, ok, err, conflict, not_found, quota_exceeded}
use orbit_cloud.Storage.{ObjectStorage}
use orbit_cloud.Drive.{FileRow, CopyTask, Drive}
use orbit_cloud.Drive.Action.{
  Action, Keeps, Keeps-bind, Keeps-attempt, Keeps-pure, Keeps-lift, Keeps-asks, Keeps-on_drive,
  Keeps-refuse_if,
}
use orbit_cloud.Drive.Move.{MoveArg}
use orbit_cloud.Drive.Across.{
  on_tasks, start_task, remove_task, delete_task, create_task, copy_of_task, delete_source,
  source_copied, source_loaded, process_found, process_copy_task, resume_each, resume_copy_tasks,
  move_file_across, move_file,
}
use orbit_cloud.Drive.Keeping.{IsClosed}
use orbit_cloud.Drive.Keeping.Chains.{usable_file-Keeps, target_folder-Keeps}
use orbit_cloud.Drive.Keeping.Handlers.{
  copy_file_inner-Keeps, delete_file-Keeps, move_file_same_bucket-Keeps,
}

module _ {S : Type 0} (st : ObjectStorage S) (to_lower : List ℕ → List ℕ) (P : Drive → Type 0)
    (closed : IsClosed st to_lower P) where
  on_tasks-Keeps : (change : List CopyTask → List CopyTask) → Keeps {S = S} P (on_tasks change)
  unfolding on_tasks
  on_tasks-Keeps change =
      Keeps-on_drive P _ (λ d. closed.tasks (change d.copy_tasks) d.next_task_id d)

  delete_source-Keeps : (now : ℕ) (task : CopyTask) → Keeps {S = S} P (delete_source now task)
  unfolding delete_source delete_task
  delete_source-Keeps now task =
      Keeps-bind P (delete_file-Keeps st to_lower P closed now task.bucket_id task.source_file_id)
        (λ done. on_tasks-Keeps (remove_task task.id))

  source_copied-Keeps :
      (now : ℕ) (task : CopyTask) (r : Result FileRow) → Keeps {S = S} P (source_copied now task r)
  unfolding source_copied delete_task
  source_copied-Keeps now task (ok f) = delete_source-Keeps now task
  source_copied-Keeps now task (err conflict) = delete_source-Keeps now task
  source_copied-Keeps now task (err quota_exceeded) =
      Keeps-bind P (on_tasks-Keeps (remove_task task.id)) (λ done. Keeps-lift P _)
  source_copied-Keeps now task (err e) = Keeps-lift P _

  source_loaded-Keeps :
      (now : ℕ) (task : CopyTask) (r : Result FileRow)
      → Keeps P (source_loaded st to_lower now task r)
  unfolding source_loaded delete_task
  source_loaded-Keeps now task (ok f) =
      Keeps-attempt P (copy_file_inner-Keeps st to_lower P closed (copy_of_task task) false)
        (source_copied-Keeps now task)
  source_loaded-Keeps now task (err not_found) = on_tasks-Keeps (remove_task task.id)
  source_loaded-Keeps now task (err e) = Keeps-lift P _

  process_found-Keeps :
      (now : ℕ) (task : Option CopyTask) → Keeps P (process_found st to_lower now task)
  unfolding process_found
  process_found-Keeps now none = Keeps-pure P tt
  process_found-Keeps now (some task) =
      Keeps-bind P (on_tasks-Keeps (start_task task.id))
        (λ done. Keeps-attempt P (Keeps-asks P _) (source_loaded-Keeps now task))

  process_copy_task-Keeps : (now id : ℕ) → Keeps P (process_copy_task st to_lower now id)
  unfolding process_copy_task
  process_copy_task-Keeps now id = Keeps-bind P (Keeps-asks P _) (process_found-Keeps now)

  resume_each-Keeps :
      (now : ℕ) (first : Result (Unit {0})) (tasks : List CopyTask)
      → Keeps P (resume_each st to_lower now first tasks)
  unfolding resume_each
  resume_each-Keeps now first [] = Keeps-lift P first
  resume_each-Keeps now first (task ∷ rest) =
      Keeps-attempt P (process_copy_task-Keeps now task.id) (λ r. resume_each-Keeps now _ rest)

  pub resume_copy_tasks-Keeps : (now : ℕ) → Keeps P (resume_copy_tasks st to_lower now)
  unfolding resume_copy_tasks
  resume_copy_tasks-Keeps now = Keeps-bind P (Keeps-asks P _) (resume_each-Keeps now (ok tt))

  create_task-Keeps :
      (arg : MoveArg) (folder_id : ℕ) (dir name : List ℕ)
      → Keeps {S = S} P (create_task arg folder_id dir name)
  unfolding create_task
  create_task-Keeps arg folder_id dir name =
      Keeps-on_drive P _ (λ d. closed.tasks _ (d.next_task_id + 1) d)

  move_file_across-Keeps :
      (now : ℕ) (arg : MoveArg) (dir name : List ℕ)
      → Keeps P (move_file_across st to_lower now arg dir name)
  unfolding move_file_across
  move_file_across-Keeps now arg dir name =
      Keeps-bind P (target_folder-Keeps P to_lower closed.new_folder _ _ _) (λ folder_id.
        Keeps-bind P (Keeps-asks P _) (λ exists. Keeps-bind P (Keeps-refuse_if P _ _) (λ passed.
          Keeps-bind P (create_task-Keeps arg folder_id dir name) (λ task_id.
            Keeps-attempt P (process_copy_task-Keeps now task_id) (λ logged. Keeps-asks P _)))))

  module _ (equal_fold : List ℕ → List ℕ → Bool) where
    by_bucket-Keeps :
        {A : Type 0} (b : Bool) {m n : Action S A}
        → Keeps P m
        → Keeps P n
        → Keeps P (if b then m else n)
    by_bucket-Keeps true k l = k
    by_bucket-Keeps false k l = l

    pub move_file-Keeps :
        (now : ℕ) (arg : MoveArg) → Keeps P (move_file st to_lower now equal_fold arg)
    unfolding move_file
    move_file-Keeps now arg = Keeps-bind P (usable_file-Keeps P _ _) (λ file.
        Keeps-bind P (Keeps-lift P _) (λ dir. Keeps-bind P (Keeps-lift P _) (λ name.
          by_bucket-Keeps (arg.dst_bucket_id == arg.src_bucket_id)
            (move_file_same_bucket-Keeps st to_lower P closed equal_fold arg.user_id
              arg.src_bucket_id file dir name)
            (move_file_across-Keeps now arg dir name))))
