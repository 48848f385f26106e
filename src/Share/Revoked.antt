-- ===== src/Share/Revoked.antt =====
-- A file in the recycle bin is given by no share.
use orbit_cloud.Base.{
  ℕ, ◌≡◌, sym, ap, ◌∙◌, inl, inr, Bool, true, false, some, List, [], ◌∷◌, ◌==◌, Bool-cases, arith,
}
use orbit_cloud.Base.Errors.{ok}
use orbit_cloud.Drive.{FileRow, is_kept}
use orbit_cloud.Drive.Action.{World, bind-ok, ◌>>=◌, on_drive}
use orbit_cloud.Drive.Books.{IsRow}
use orbit_cloud.Drive.Copy.{usable_file}
use orbit_cloud.Drive.Move.{update_file}
use orbit_cloud.Drive.Recycle.{set_deleted_at, recycle, delete_file}
use orbit_cloud.Share.Access.{resolve_shared_file}
use orbit_cloud.Share.Granted.{resolve_shared_file-IsGranted}

-- A row that is not deleted has another id.
recycled_row :
    (at id : ℕ) (files : List FileRow) (f : FileRow)
    → IsRow f (update_file id (set_deleted_at (some at)) files)
    → is_kept f.deleted_at ≡ true
    → (f.id == id) ≡ false
unfolding update_file
recycled_row at id [] f row kept = absurd row
recycled_row at id (g ∷ rest) f (inr row) kept = recycled_row at id rest f row kept
recycled_row at id (g ∷ rest) f (inl e) kept = elim (Bool-cases (g.id == id)) [
  | inl b ↦
      let moved : f ≡ set_deleted_at (some at) g = ground (arith, e, b) in
      let lost : is_kept f.deleted_at ≡ false = ap (λ h. is_kept h.deleted_at) moved in
      ground (arith, lost, kept)
  | inr b ↦ let unmoved : f ≡ g = ground (arith, e, b) in ap (λ h. h.id == id) unmoved ∙ b
]

-- Once a file is deleted, into the recycle bin, no token gives it, whether it was shared itself or
-- is in a folder that is shared.
pub delete_file-resolve :
    {S : Type 0} (to_lower : List ℕ → List ℕ) (compare : List ℕ → List ℕ → Bool)
    (at bucket_id file_id : ℕ) (before after : World S)
    → delete_file at bucket_id file_id before ≡ (ok tt, after)
    → (now : ℕ) (token password path : List ℕ) (f : FileRow)
    → resolve_shared_file to_lower compare now token password path after.drive ≡ ok f
    → (f.id == file_id) ≡ false
unfolding delete_file recycle on_drive ◌>>=◌
delete_file-resolve to_lower compare at bucket_id file_id before after e now token password path f
      h =
    let (g, between, checked, last) = bind-ok (usable_file bucket_id file_id) _ e in
    let granted =
      resolve_shared_file-IsGranted to_lower compare now token password path after.drive f h in
    let same : after.drive.files
        ≡ update_file file_id (set_deleted_at (some at)) between.drive.files =
      sym (ap (λ r. r.1.drive.files) last) in
    recycled_row at file_id between.drive.files f (rw (sym same) granted.file.row) granted.file.kept
