-- ===== src/Share/Granted.antt =====
-- What a share gives to whoever has its token.
use orbit_cloud.Base.{
  ℕ, ◌≡◌, refl, sym, inl, inr, Bool, true, false, ◌&&◌, List, ◌==◌, length, Bool-cases, arith,
}
use orbit_cloud.Base.Errors.{Result, ok, err, bind-ok, ok-injective}
use orbit_cloud.Names.{same_text, trim_space}
use orbit_cloud.Drive.{
  FileRow, FolderRow, ItemKind, kind_file, kind_folder, ShareLink, Drive, is_kept, ancestors_usable,
}
use orbit_cloud.Drive.Books.Held.{IsRow-find_file}
use orbit_cloud.Share.{load_folder_by_id, load_file_by_id, get_share_by_token}
use orbit_cloud.Share.Access.{
  Shared, shared_file, shared_folder, is_expired, is_refused, item_by_id, check_found, check_share,
  file_of_shared, resolve_shared_file, file_found, folder_found,
}
use orbit_cloud.Share.Below.{
  IsShare, IsKeptFile, Reaches, own_file, in_folder, IsFolderRow-find_folder, IsShare-find_share,
  locate_shared_file-Below,
}

pub record IsGranted (compare : List ℕ → List ℕ → Bool) (now : ℕ) (token password : List ℕ)
    (d : Drive) (f : FileRow) : Type 0 where
  pub share : ShareLink
  pub row : IsShare share d.shares
  pub live : share.deleted ≡ false
  pub named : same_text share.token token ≡ true
  pub in_time : is_expired now share ≡ false
  pub admitted : is_refused compare share password ≡ false
  pub file : IsKeptFile d f
  pub reaches : Reaches d share f
  pub usable : ancestors_usable d f.bucket_id f.folder_id ≡ ok tt

file_found-ok : (r : Result FileRow) {g : FileRow} → file_found r ≡ ok (shared_file g) → r ≡ ok g
file_found-ok (err e) h = cc
file_found-ok (ok f) h = cc

file_found_no_folder :
    (r : Result FileRow) {g : FolderRow} → file_found r ≡ ok (shared_folder g) → ⊥
file_found_no_folder (err e) h = cc
file_found_no_folder (ok f) h = cc

folder_found-ok :
    (r : Result FolderRow) {g : FolderRow} → folder_found r ≡ ok (shared_folder g) → r ≡ ok g
folder_found-ok (err e) h = cc
folder_found-ok (ok f) h = cc

folder_found_no_file :
    (r : Result FolderRow) {g : FileRow} → folder_found r ≡ ok (shared_file g) → ⊥
folder_found_no_file (err e) h = cc
folder_found_no_file (ok f) h = cc

item_by_id-Reaches :
    (to_lower : List ℕ → List ℕ) (d : Drive) (s : ShareLink) (kind : ItemKind) (item : Shared)
    (path : List ℕ) (f : FileRow)
    → s.item_type ≡ kind
    → item_by_id d kind s.bucket_item_id ≡ ok item
    → file_of_shared to_lower d path item ≡ ok f
    → Reaches d s f × IsKeptFile d f
unfolding item_by_id file_of_shared load_file_by_id load_folder_by_id
item_by_id-Reaches to_lower d s kind_file (shared_file g) path f is_kind e h =
    let id = s.bucket_item_id in
    let (row, passes) =
      IsRow-find_file (λ f. is_kept f.deleted_at && f.id == id) d.files g
        (file_found-ok (load_file_by_id d id) e) in
    let same : g ≡ f = ok-injective h in
    rw (sym same) (
      own_file is_kind (ground (arith, passes)),
      record { row = row; kept = ground (arith, passes) },
    )
item_by_id-Reaches to_lower d s kind_file (shared_folder g) path f is_kind e h =
    absurd (file_found_no_folder (load_file_by_id d s.bucket_item_id) e)
item_by_id-Reaches to_lower d s kind_folder (shared_file g) path f is_kind e h =
    absurd (folder_found_no_file (load_folder_by_id d s.bucket_item_id) e)
item_by_id-Reaches to_lower d s kind_folder (shared_folder root) path f is_kind e h =
    let id = s.bucket_item_id in
    let (row, passes) =
      IsFolderRow-find_folder (λ f. is_kept f.deleted_at && f.id == id) d.folders root
        (folder_found-ok (load_folder_by_id d id) e) in
    let (kept, bucket, below) = locate_shared_file-Below to_lower d root path f h in
    (
      in_folder root is_kind (ground (arith, passes))
          (record { row = row; kept = ground (arith, passes); bucket = refl }) bucket below,
      kept,
    )

-- The share behind a check that ends well.
check_share_parts :
    (compare : List ℕ → List ℕ → Bool) (now : ℕ) (token password : List ℕ) (d : Drive)
    (item : Shared)
    → check_share compare now token password d ≡ ok item
    → (s : ShareLink) × IsShare s d.shares
      × (s.deleted ≡ false)
      × (same_text s.token token ≡ true)
      × (is_expired now s ≡ false)
      × (is_refused compare s password ≡ false)
      × (item_by_id d s.item_type s.bucket_item_id ≡ ok item)
unfolding check_share check_found get_share_by_token
check_share_parts compare now token password d item e =
    let (s, got, e₁) =
      bind-ok (get_share_by_token d token) (check_found compare now password d) e in
    elim (Bool-cases (length (trim_space token) == 0)) [
      | inl b ↦ ground (arith, got, b)
      | inr b ↦
          let (row, live, named) =
            IsShare-find_share (λ s. same_text s.token token) d.shares s (ground (arith, got, b)) in
          elim (Bool-cases (is_expired now s)) [
            | inl c ↦ ground (arith, e₁, c)
            | inr c ↦ elim (Bool-cases (is_refused compare s password)) [
              | inl r ↦ ground (arith, e₁, c, r)
              | inr r ↦ (s, row, live, named, c, r, ground (arith, e₁, c, r))
            ]
          ]
    ]

-- A file that is given for a token and a password is not deleted; there is a share of that token
-- that is not deleted and not expired, and whose password, if it has one, is the given one; the file
-- is the share's own, or it is in its folder, or in a folder below that in the same bucket, with no
-- folder on the way deleted; and the folders from the file up to the root can be used.
pub resolve_shared_file-IsGranted :
    (to_lower : List ℕ → List ℕ) (compare : List ℕ → List ℕ → Bool) (now : ℕ)
    (token password path : List ℕ) (d : Drive) (f : FileRow)
    → resolve_shared_file to_lower compare now token password path d ≡ ok f
    → IsGranted compare now token password d f
unfolding resolve_shared_file
resolve_shared_file-IsGranted to_lower compare now token password path d f e =
    let (item, checked, e₁) = bind-ok (check_share compare now token password d) _ e in
    let (g, located, e₂) = bind-ok (file_of_shared to_lower d path item) _ e₁ in
    let (done, usable, e₃) = bind-ok (ancestors_usable d g.bucket_id g.folder_id) _ e₂ in
    let same : g ≡ f = ok-injective e₃ in
    let (s, row, live, named, in_time, admitted, taken) =
      check_share_parts compare now token password d item checked in
    let (reaches, file) =
      item_by_id-Reaches to_lower d s s.item_type item path g refl taken located in
    rw (sym same) (record {
      share = s;
      row = row;
      live = live;
      named = named;
      in_time = in_time;
      admitted = admitted;
      file = file;
      reaches = reaches;
      usable = usable;
    })
