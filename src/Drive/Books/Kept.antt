-- ===== src/Drive/Books/Kept.antt =====
-- The books stay right through every step that a request on files takes.
use orbit_cloud.Base.{
  ℕ, ◌+◌, ◌≡◌, refl, inl, inr, true, List, ◌==◌, Bool-cases, Option-cases, arith,
}
use orbit_cloud.Base.Int.{pos, ◌+ℤ◌}
use orbit_cloud.BucketCoder.{bucket_encoder}
use orbit_cloud.Storage.{ObjectStorage, Fetched, found, missing, failed}
use orbit_cloud.Drive.{FileRow, Drive, tables, object_key_for_file}
use orbit_cloud.Drive.Action.{World, Action, ◌>>=◌, Keeps}
use orbit_cloud.Drive.Naming.{file_named}
use orbit_cloud.Drive.Storing.{
  NewFile, row_of, with_file, remove_file, book, without_row, create_row, take_back, put_and_book,
  put_fetched, copy_and_book,
}
use orbit_cloud.Drive.Move.{update_file}
use orbit_cloud.Drive.Recycle.{forget, give_back}
use orbit_cloud.Drive.Books.{share, IsRow, Books, bucket_of, user_of, used_by_bucket}
use orbit_cloud.Drive.Books.Held.{
  Falling-weaken, remove_file_above, Falling-remove_file, held-update_file, Falling-update_file,
}
use orbit_cloud.Drive.Books.Balance.{
  booked-Balanced, returned-Balanced, Balanced-add_user_used_space, Balanced-return_user_used_space,
}

-- A row taken back leaves the table that was there before it.
pub Books-without_row :
    (f : NewFile) (d : Drive) → Books d → Books (without_row d.next_file_id (with_file f d))
unfolding remove_file
Books-without_row f d (falling, buckets, users) =
    let next = d.next_file_id in
    let mine : (next == next) ≡ true = ground arith in
    let others : remove_file next d.files ≡ d.files =
      remove_file_above next next d.files (omega arith) falling in
    rw (mine, others) (Falling-weaken next (next + 1) d.files (omega arith) falling, buckets, users)

-- A row that is booked.
pub Books-book :
    (f : NewFile) (d : Drive)
    → Books d
    → Books (book f.bucket_id f.uploaded_by f.file_size (with_file f d))
unfolding book
Books-book f d (falling, buckets, users) =
    let new = row_of d.next_file_id f in
    (
      (omega arith, falling),
      booked-Balanced bucket_of used_by_bucket
          (λ b. record b { used_space = b.used_space +ℤ pos f.file_size }) d.bucket_space d.files
          new (λ b. refl) buckets,
      Balanced-add_user_used_space (tables (with_file f d)) d.files new users,
    )

pub Books-forget : (f : FileRow) (d : Drive) → IsRow f d.files → Books d → Books (forget f d)
unfolding forget
Books-forget f d row (falling, buckets, users) =
    let next = d.next_file_id in
    (
      Falling-remove_file next f.id d.files falling,
      returned-Balanced bucket_of used_by_bucket (give_back f.file_size) d.bucket_space next d.files
          f (λ b. refl) falling row buckets,
      Balanced-return_user_used_space (tables d) next d.files f falling row users,
    )

-- A change of rows that leaves ids, buckets, users and sizes.
pub record Stays (change : FileRow → FileRow) : Type 0 where
  pub same_id : (f : FileRow) → (change f).id ≡ f.id
  pub same_bucket : (i : ℕ) (f : FileRow) → share bucket_of i (change f) ≡ share bucket_of i f
  pub same_user : (i : ℕ) (f : FileRow) → share user_of i (change f) ≡ share user_of i f

pub Books-update_file :
    (id : ℕ) (change : FileRow → FileRow) (d : Drive)
    → Stays change
    → Books d
    → Books (record d { files = update_file id change d.files })
Books-update_file id change d stays (falling, buckets, users) = (
  Falling-update_file d.next_file_id id change d.files stays.same_id falling,
  λ i b e.
      rw (held-update_file bucket_of i id change d.files (stays.same_bucket i)) (buckets i b e),
  λ i u e. rw (held-update_file user_of i id change d.files (stays.same_user i)) (users i u e),
)

module _ {S : Type 0} (st : ObjectStorage S) where
  pub Books-put_and_book :
      (f : NewFile) (bytes : List ℕ) (w : World S)
      → Books w.drive
      → Books
          (put_and_book st
            (row_of w.drive.next_file_id f)
            bytes
            (record w { drive = with_file f w.drive })).1.drive
  unfolding put_and_book take_back
  Books-put_and_book f bytes w p =
      let new = row_of w.drive.next_file_id f in
      elim (Option-cases
        (st.put w.storage (bucket_encoder f.bucket_id) (object_key_for_file new.id) bytes)) [
          | inl e ↦ rw (e, put_and_book) (Books-without_row f w.drive p)
          | inr (s, e) ↦ rw (e, put_and_book) (Books-book f w.drive p)
        ]

  Books-put_fetched :
      (f : NewFile) (fetched : Fetched) (w : World S)
      → Books w.drive
      → Books
          (put_fetched st
            (row_of w.drive.next_file_id f)
            fetched
            (record w { drive = with_file f w.drive })).1.drive
  unfolding put_fetched take_back
  Books-put_fetched f (found bytes) w p = Books-put_and_book f bytes w p
  Books-put_fetched f missing w p = Books-without_row f w.drive p
  Books-put_fetched f failed w p = Books-without_row f w.drive p

  pub Books-copy_and_book :
      (src : FileRow) (f : NewFile) (w : World S)
      → Books w.drive
      → Books
          (copy_and_book st src
            (row_of w.drive.next_file_id f)
            (record w { drive = with_file f w.drive })).1.drive
  unfolding copy_and_book
  Books-copy_and_book src f w =
      Books-put_fetched f
        (st.get w.storage (bucket_encoder src.bucket_id) (object_key_for_file src.id)) w

  -- A row and what is behind it.
  pub Books-create_row :
      (to_lower : List ℕ → List ℕ) (f : NewFile) (next : FileRow → Action S FileRow)
      → ((w : World S)
          → Books w.drive
          → Books
              (next
                (row_of w.drive.next_file_id f)
                (record w { drive = with_file f w.drive })).1.drive)
      → Keeps Books (create_row to_lower f >>= next)
  unfolding create_row ◌>>=◌
  Books-create_row to_lower f next k = record {
    kept = λ w p.
        elim (Bool-cases
          (file_named to_lower f.bucket_id f.folder_id (to_lower f.name) w.drive.files)) [
            | inl b ↦ rw (b, create_row) p
            | inr b ↦ rw (b, create_row) (k w p)
          ];
  }
