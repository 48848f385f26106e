-- ===== src/Drive/Across.antt =====
-- server/file_copy_move.go and server/copy_task.go: the move of a file, which to another bucket is
-- a task that copies the file and then deletes it, and cron/resume.go: the tasks that are left are
-- processed again. `now` is the time of the deletion.
use orbit_cloud.Base.{
  ℕ, ◌+◌, Bool, false, ◌&&◌, Option, none, some, List, [], ◌∷◌, ◌==◌, if◌then◌else◌,
}
use orbit_cloud.Base.Errors.{Result, ok, err, conflict, not_found, quota_exceeded, internal}
use orbit_cloud.Storage.{ObjectStorage}
use orbit_cloud.Names.{normalize_dir_path, same_text}
use orbit_cloud.Drive.{FileRow, CopyTask, Drive, is_kept, find_file, load_file}
use orbit_cloud.Drive.Action.{Action, ◌>>=◌, ◌>>◌, pure, lift, asks, on_drive, attempt, refuse_if}
use orbit_cloud.Drive.Naming.{name_exists}
use orbit_cloud.Drive.Copy.{CopyFileArg, name_or, usable_file, target_folder, copy_file_inner}
use orbit_cloud.Drive.Move.{MoveArg, move_file_same_bucket}
use orbit_cloud.Drive.Recycle.{delete_file}

unfoldable pub find_task : ℕ → List CopyTask → Option CopyTask
find_task id [] = none
find_task id (t ∷ rest) = if t.id == id then some t else find_task id rest

unfoldable pub remove_task : ℕ → List CopyTask → List CopyTask
remove_task id [] = []
remove_task id (t ∷ rest) = let kept = remove_task id rest in if t.id == id then kept else t ∷ kept

-- The update of `status` when the lock is taken.
unfoldable pub start_task : ℕ → List CopyTask → List CopyTask
start_task id [] = []
start_task id (t ∷ rest) = (if t.id == id then record t { status = 1 } else t) ∷ start_task id rest

-- A change of the table of tasks.
unfoldable pub on_tasks : {S : Type 0} → (List CopyTask → List CopyTask) → Action S (Unit {0})
on_tasks change = on_drive (λ d. (ok tt, record d { copy_tasks = change d.copy_tasks }))

unfoldable pub delete_task : {S : Type 0} → ℕ → Action S (Unit {0})
unfolding on_tasks remove_task
delete_task id = on_tasks (remove_task id)

-- `operatorLevelOf`
unfoldable pub operator_level_of : Drive → ℕ → ℕ
operator_level_of d user_id =
    if user_id == 0 then 0 else elim (d.get_user user_id) [ err e ↦ 0 | ok u ↦ u.permission_level ]

-- The row of a task, and its id.
unfoldable pub create_task : {S : Type 0} → MoveArg → ℕ → List ℕ → List ℕ → Action S ℕ
unfolding operator_level_of
create_task arg folder_id dir name = on_drive (λ d. (
  ok d.next_task_id,
  record d {
    copy_tasks =
        record {
          id = d.next_task_id;
          bucket_id = arg.src_bucket_id;
          source_file_id = arg.src_id;
          dst_bucket_id = arg.dst_bucket_id;
          dst_folder_id = folder_id;
          dst_dir_path = dir;
          dst_name = name;
          uploaded_by = arg.user_id;
          operator_level = operator_level_of d arg.user_id;
          status = 0;
        }
        ∷ d.copy_tasks;
    next_task_id = d.next_task_id + 1;
  },
))

-- The copy that a task makes.
abbrev pub copy_of_task : CopyTask → CopyFileArg
copy_of_task task = record {
  user_id = task.uploaded_by;
  src_bucket_id = task.bucket_id;
  src_file_id = task.source_file_id;
  dst_bucket_id = task.dst_bucket_id;
  dst_dir_path = [];
  dst_filename = task.dst_name;
  dst_folder_id = task.dst_folder_id;
}

-- The last step of `processCopyFileTask`.
unfoldable pub delete_source : {S : Type 0} → ℕ → CopyTask → Action S (Unit {0})
unfolding delete_file delete_task
delete_source now task = do delete_file now task.bucket_id task.source_file_id; delete_task task.id

-- What follows the copy: a conflict means that an earlier round has made it.
unfoldable pub source_copied : {S : Type 0} → ℕ → CopyTask → Result FileRow → Action S (Unit {0})
unfolding delete_source delete_task
source_copied now task (ok f) = delete_source now task
source_copied now task (err conflict) = delete_source now task
source_copied now task (err quota_exceeded) = delete_task task.id >> lift (err quota_exceeded)
source_copied now task (err e) = lift (err e)

module _ {S : Type 0} (st : ObjectStorage S) (to_lower : List ℕ → List ℕ) (now : ℕ) where
  -- What follows the loading of the source.
  unfoldable pub source_loaded : CopyTask → Result FileRow → Action S (Unit {0})
  unfolding copy_file_inner source_copied delete_task
  source_loaded task (ok f) =
      attempt (copy_file_inner to_lower st (copy_of_task task) false) (source_copied now task)
  source_loaded task (err not_found) = delete_task task.id
  source_loaded task (err e) = lift (err e)

  unfoldable pub process_found : Option CopyTask → Action S (Unit {0})
  unfolding on_tasks start_task load_file source_loaded
  process_found none = pure tt
  process_found (some task) = do
    on_tasks (start_task task.id)
    attempt (asks (λ d. load_file d task.bucket_id task.source_file_id)) (source_loaded task)

  -- `ProcessCopyTask` with `processCopyFileTask`
  unfoldable pub process_copy_task : ℕ → Action S (Unit {0})
  unfolding find_task process_found
  process_copy_task id = asks (λ d. ok (find_task id d.copy_tasks)) >>= process_found

  -- The loop of `ResumeCopyTasks`: an error is kept if it is the first, and the rest goes on.
  unfoldable pub resume_each : Result (Unit {0}) → List CopyTask → Action S (Unit {0})
  unfolding process_copy_task
  resume_each first [] = lift first
  resume_each first (task ∷ rest) =
      attempt (process_copy_task task.id)
        (λ r. resume_each (elim first [ err e ↦ err e | ok done ↦ r ]) rest)

  -- `ResumeCopyTasks`: the tasks whose status is not 2, which none has.
  unfoldable pub resume_copy_tasks : Action S (Unit {0})
  unfolding resume_each
  resume_copy_tasks = asks (λ d. ok d.copy_tasks) >>= resume_each (ok tt)

  -- The file that a move to another bucket returns.
  unfoldable pub moved_file : ℕ → ℕ → List ℕ → Drive → Result FileRow
  unfolding find_file same_text
  moved_file bucket_id folder_id name d =
      elim (find_file
        (λ f.
          is_kept f.deleted_at
          && ((f.bucket_id == bucket_id && f.folder_id == folder_id)
              && same_text (to_lower f.name) (to_lower name)))
        d.files) [ ok f ↦ ok f | err e ↦ err internal ]

  -- The branch of `MoveFile` for another bucket: an error of the task is only logged.
  unfoldable pub move_file_across : MoveArg → List ℕ → List ℕ → Action S FileRow
  unfolding target_folder name_exists create_task process_copy_task moved_file
  move_file_across arg dir name = do
    folder_id ← target_folder to_lower arg.user_id arg.dst_bucket_id dir
    exists ← asks (λ d. ok (name_exists to_lower d arg.dst_bucket_id folder_id name))
    refuse_if exists conflict
    task_id ← create_task arg folder_id dir name
    attempt (process_copy_task task_id)
        (λ logged. asks (moved_file arg.dst_bucket_id folder_id name))

  -- `MoveFile`
  unfoldable pub move_file : (List ℕ → List ℕ → Bool) → MoveArg → Action S FileRow
  unfolding usable_file name_or move_file_same_bucket move_file_across
  move_file equal_fold arg = do
    file ← usable_file arg.src_bucket_id arg.src_id
    dir ← lift (normalize_dir_path arg.dst_dir_path)
    name ← lift (name_or arg.dst_name file.name)
    if arg.dst_bucket_id == arg.src_bucket_id
        then move_file_same_bucket to_lower equal_fold arg.user_id arg.src_bucket_id file dir name
        else move_file_across arg dir name
