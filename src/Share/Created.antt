-- ===== src/Share/Created.antt =====
-- A share that is made can be used.
use orbit_cloud.Base.{
  ℕ, ◌+◌, ◌≡◌, refl, sym, ap, ◌∙◌, inl, inr, Bool, true, false, ◌&&◌, List, [], ◌∷◌, ◌==◌, length,
  Bool-cases, arith,
}
use orbit_cloud.Base.Errors.{Result, ok, bind-ok, Result-cases, ok-injective}
use orbit_cloud.Names.{same_text_refl, trim_space}
use orbit_cloud.Drive.{ItemKind, kind_file, kind_folder, ShareLink, Drive, is_kept}
use orbit_cloud.Share.{
  CreateShareArg, load_folder_by_id, load_file_by_id, kind_of_item, check_input, free_token,
  hash_to_store, new_share, without_password, token_in, insert_share, share_to_insert, create_share,
  find_share, get_share_by_token,
}
use orbit_cloud.Drive.Books.Held.{IsRow-find_file}
use orbit_cloud.Share.Below.{IsFolderRow-find_folder}
use orbit_cloud.Share.Access.{
  Shared, shared_file, shared_folder, is_expired, is_refused, item_by_id, check_found, check_share,
}

-- A row is what an id of a kind stands for.
abbrev pub IsItem : ItemKind → ℕ → Shared → Type 0
IsItem kind id (shared_file f) = (kind ≡ kind_file) × (f.id ≡ id)
IsItem kind id (shared_folder f) = (kind ≡ kind_folder) × (f.id ≡ id)

-- What an inserted share is.
inserted :
    (arg : CreateShareArg) (d : Drive) (s : ShareLink)
    → share_to_insert arg d ≡ ok s
    → (kind : ItemKind) × (token : List ℕ) × (hash : List ℕ) × (kind_of_item d arg.file_id
        ≡ ok kind)
      × (hash_to_store arg.password arg.hashed ≡ ok hash)
      × (s ≡ new_share arg kind token hash d.next_share_id)
unfolding share_to_insert
inserted arg d s e =
    let (valid, v, e₀) = bind-ok (check_input arg) _ e in
    let (kind, k, e₁) = bind-ok (kind_of_item d arg.file_id) _ e₀ in
    let (token, t, e₂) = bind-ok (free_token d.shares 5 arg.draws) _ e₁ in
    let (hash, h, e₃) = bind-ok (hash_to_store arg.password arg.hashed) _ e₂ in
    (kind, token, hash, k, h, sym (ok-injective e₃))

-- The same for what `CreateShare` returns and leaves.
created :
    (arg : CreateShareArg) (d later : Drive) (s : ShareLink)
    → create_share arg d ≡ (ok s, later)
    → (t : ShareLink) × (share_to_insert arg d ≡ ok t)
      × (s ≡ without_password t)
      × (later ≡ record d { shares = t ∷ d.shares; next_share_id = d.next_share_id + 1 })
unfolding create_share insert_share
created arg d later s e = elim (Result-cases (share_to_insert arg d)) [
  | inr (failure, h) ↦ ground (arith, e, h)
  | inl (t, h) ↦ elim (Bool-cases (token_in t.token d.shares)) [
    | inl b ↦ ground (arith, e, h, b)
    | inr b ↦
        let left = record d { shares = t ∷ d.shares; next_share_id = d.next_share_id + 1 } in
        let made : create_share arg d ≡ (ok (without_password t), left) =
          rw (h, b, create_share) refl in
        let same = sym made ∙ e in
        (t, h, sym (ok-injective (ap (λ r. r.0) same)), sym (ap (λ r. r.1) same))
  ]
]

-- The item is there under its kind.
kind_of_item-IsItem :
    (d : Drive) (id : ℕ) (kind : ItemKind)
    → kind_of_item d id ≡ ok kind
    → (item : Shared) × (item_by_id d kind id ≡ ok item) × IsItem kind id item
unfolding kind_of_item item_by_id load_folder_by_id load_file_by_id
kind_of_item-IsItem d id kind e = elim (Result-cases (load_folder_by_id d id)) [
  | inl (f, h) ↦
      let is_folder : kind ≡ kind_folder = ground (arith, e, h) in
      let (row, passes) =
        IsFolderRow-find_folder (λ f. is_kept f.deleted_at && f.id == id) d.folders f h in
      (shared_folder f, rw (is_folder, h) refl, (is_folder, ground (arith, passes)))
  | inr (failure, h) ↦ elim (Result-cases (load_file_by_id d id)) [
    | inr (no_file, l) ↦ ground (arith, e, h, l)
    | inl (f, l) ↦
        let is_file : kind ≡ kind_file = ground (arith, e, h, l) in
        let (row, passes) = IsRow-find_file (λ f. is_kept f.deleted_at && f.id == id) d.files f l in
        (shared_file f, rw (is_file, l) refl, (is_file, ground (arith, passes)))
  ]
]

-- The password that a share was made with is admitted.
admitted :
    (compare : List ℕ → List ℕ → Bool) (password : List ℕ) (hashed : Result (List ℕ))
    (s : ShareLink)
    → hash_to_store password hashed ≡ ok s.password
    → ((hash : List ℕ) → hashed ≡ ok hash → compare hash password ≡ true)
    → is_refused compare s password ≡ false
admitted compare password hashed s e agrees = elim (Bool-cases (length password == 0)) [
  | inl b ↦ let none : s.password ≡ [] = ground (arith, e, b) in rw none refl
  | inr b ↦
      let made : hashed ≡ ok s.password = ground (arith, e, b) in
      let right : compare s.password password ≡ true = agrees s.password made in
      ground (arith, right)
]

abbrev with_share : ShareLink → Drive → Drive
with_share t d = record d { shares = t ∷ d.shares; next_share_id = d.next_share_id + 1 }

item_by_id-with_share :
    (t : ShareLink) (d : Drive) (kind : ItemKind) (id : ℕ)
    → item_by_id (with_share t d) kind id ≡ item_by_id d kind id
unfolding item_by_id load_folder_by_id load_file_by_id
item_by_id-with_share t d kind_file id = refl
item_by_id-with_share t d kind_folder id = refl

check_share-with_share :
    (compare : List ℕ → List ℕ → Bool) (t : ShareLink) (d : Drive) (now : ℕ) (password : List ℕ)
    → t.deleted ≡ false
    → (length (trim_space t.token) == 0) ≡ false
    → is_expired now t ≡ false
    → is_refused compare t password ≡ false
    → check_share compare now t.token password (with_share t d)
      ≡ item_by_id d t.item_type t.bucket_item_id
unfolding check_share
check_share-with_share compare t d now password live not_blank in_time right =
    let got : get_share_by_token (with_share t d) t.token ≡ ok t =
      unfold get_share_by_token find_share in rw (not_blank, live, same_text_refl t.token) refl in
    let checked : check_found compare now password (with_share t d) t
        ≡ item_by_id (with_share t d) t.item_type t.bucket_item_id =
      unfold check_found in rw (in_time, right) refl in
    rw (got, checked) (item_by_id-with_share t d t.item_type t.bucket_item_id)

-- A share that `CreateShare` makes gives, by its token and with the password that it was made with,
-- the item that was named, until it expires: where the token is not blank, and a hash that bcrypt
-- made agrees with its password.
pub create_share-check_share :
    (compare : List ℕ → List ℕ → Bool) (arg : CreateShareArg) (d later : Drive) (s : ShareLink)
    (now : ℕ)
    → create_share arg d ≡ (ok s, later)
    → ((hash : List ℕ) → arg.hashed ≡ ok hash → compare hash arg.password ≡ true)
    → (length (trim_space s.token) == 0) ≡ false
    → is_expired now s ≡ false
    → (item : Shared) × (check_share compare now s.token arg.password later ≡ ok item)
      × IsItem s.item_type arg.file_id item
create_share-check_share compare arg d later s now e agrees not_blank in_time =
    let (t, h, same, left) = created arg d later s e in
    let (kind, token, hash, k, hashed, is_new) = inserted arg d t h in
    let n = new_share arg kind token hash d.next_share_id in
    let (item, there, is_item) = kind_of_item-IsItem d arg.file_id kind k in
    let ours : s ≡ without_password n = same ∙ ap without_password is_new in
    let after : later ≡ with_share n d = left ∙ ap (λ t. with_share t d) is_new in
    let blank_not : (length (trim_space n.token) == 0) ≡ false =
      ap (λ s. length (trim_space s.token) == 0) (sym ours) ∙ not_blank in
    let fresh : is_expired now n ≡ false = ap (is_expired now) (sym ours) ∙ in_time in
    let right = admitted compare arg.password arg.hashed n hashed agrees in
    rw (ours, after)
      (
        item,
        check_share-with_share compare n d now arg.password refl blank_not fresh right ∙ there,
        is_item,
      )
