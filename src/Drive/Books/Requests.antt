-- ===== src/Drive/Books/Requests.antt =====
-- The books through every request.
use orbit_cloud.Base.{ℕ, refl, Bool, some, List}
use orbit_cloud.Storage.{ObjectStorage}
use orbit_cloud.Drive.{Drive, get_recycled_file}
use orbit_cloud.Drive.Action.{World}
use orbit_cloud.Drive.Move.{place_file}
use orbit_cloud.Drive.Recycle.{recycle, set_deleted_at}
use orbit_cloud.Drive.Calls.{Request, run}
use orbit_cloud.Drive.Keeping.{IsClosed}
use orbit_cloud.Drive.Keeping.Requests.{run-keeps}
use orbit_cloud.Drive.Books.{Books}
use orbit_cloud.Drive.Books.Held.{IsRow-find_file}
use orbit_cloud.Drive.Books.Folders.{Books-forget_folder}
use orbit_cloud.Drive.Books.Kept.{
  Stays, Books-update_file, Books-forget, Books-put_and_book, Books-copy_and_book, Books-create_row,
}

place_file-Stays : (folder_id : ℕ) (name : List ℕ) → Stays (place_file folder_id name)
place_file-Stays folder_id name = record {
  same_id = λ f. refl;
  same_bucket = λ i f. refl;
  same_user = λ i f. refl;
}

recycled-Books : (now id : ℕ) (d : Drive) → Books d → Books (recycle now id d)
unfolding recycle
recycled-Books now id d =
    Books-update_file id (set_deleted_at (some now)) d
      (record { same_id = λ f. refl; same_bucket = λ i f. refl; same_user = λ i f. refl })

Books-IsClosed :
    {S : Type 0} (st : ObjectStorage S) (to_lower : List ℕ → List ℕ) → IsClosed st to_lower Books
unfolding get_recycled_file
Books-IsClosed st to_lower = record {
  new_folder = λ f d new p. p;
  stored = λ f bytes. Books-create_row st to_lower f _ (Books-put_and_book st f bytes);
  copied = λ src f. Books-create_row st to_lower f _ (Books-copy_and_book st src f);
  placed_file = λ id folder_id name d. Books-update_file id _ d (place_file-Stays folder_id name);
  placed_folder = λ id parent_id name d p. p;
  tasks = λ tasks next d p. p;
  purged = Books-forget_folder;
  recycled = recycled-Books;
  restored = λ id folder_id name d.
      Books-update_file id _ d
        (record { same_id = λ f. refl; same_bucket = λ i f. refl; same_user = λ i f. refl });
  forgotten = λ id f d e. Books-forget f d (IsRow-find_file _ d.files f e).0;
}

-- Through any uploads, new folders, copies of a file, moves of files, in a bucket or by a task to
-- another one, moves of folders, deletions of files, restorings and purges of files in the recycle
-- bin, purges of a folder with all that is below it, and resumptions of the tasks of moves, in any
-- order and answered with or without success, the space booked for each bucket and for each user
-- stays the sum of the sizes of all their files, those in the recycle bin with them, where it is so
-- at the start and the ids are below the next one, falling along the table.
pub run-Books :
    {S : Type 0} (st : ObjectStorage S) (to_lower : List ℕ → List ℕ)
    (equal_fold : List ℕ → List ℕ → Bool) (requests : List Request) (w : World S)
    → Books w.drive
    → Books (run st to_lower equal_fold requests w).drive
run-Books st to_lower equal_fold =
    run-keeps st to_lower Books (Books-IsClosed st to_lower) equal_fold
