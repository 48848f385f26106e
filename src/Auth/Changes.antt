-- ===== src/Auth/Changes.antt =====
-- No change of an account makes it a super administrator's.
use orbit_cloud.Base.{
  ℕ, zero, suc, ◌+◌, ◌≤◌, ◌<◌, ◌≡◌, refl, inl, inr, true, ◌&&◌, ◌||◌, Option, none, some, List, [],
  ◌∷◌, map, ◌==◌, if◌then◌else◌, Bool-cases, arith,
}
use orbit_cloud.Base.Errors.{Result, ok, err, Result-cases}
use orbit_cloud.Base.Int.{ℤ, pos, negsuc, above, leb_ℤ}
use orbit_cloud.Auth.{Account, Accounts, Libraries, is_empty, is_active}
use orbit_cloud.Auth.Profile.{
  UpdateUserInput, register, update_row, change_password, change_name, change_email, change_level,
  change_status, change_quota, changes_of, level_of, admin, updates_nothing,
}

abbrev pub super_of : Account → ℕ
super_of u = if u.permission_level == 0 then 1 else 0

-- The number of the super administrators.
unfoldable pub count_super : List Account → ℕ
count_super [] = 0
count_super (u ∷ rest) = super_of u + count_super rest

above-admin : (level : ℤ) → leb_ℤ admin level ≡ true → 0 < above level
above-admin (pos n) b = ground arith
above-admin (negsuc n) b = absurd (ground arith)

-- A change that makes nobody a super administrator.
abbrev pub Lowers : (Account → Account) → Type 0
Lowers change = (u : Account) → super_of (change u) ≤ super_of u

pub count_super-update_row :
    (id : ℕ) (change : Account → Account) (users : List Account)
    → Lowers change
    → count_super (update_row id change users) ≤ count_super users
unfolding count_super update_row
count_super-update_row id change [] l = omega arith
count_super-update_row id change (u ∷ rest) l =
    ground (arith, l u, count_super-update_row id change rest l)

pub count_super-seen_at :
    (now id : ℕ) (users : List Account)
    → count_super (map (λ u. if u.id == id then record u { last_login = some now } else u) users)
      ≡ count_super users
unfolding count_super
count_super-seen_at now id [] = refl
count_super-seen_at now id (u ∷ rest) = ground (arith, count_super-seen_at now id rest)

level_of_positive : (level : ℤ) → 0 < above (level_of level)
level_of_positive (pos zero) = omega arith
level_of_positive (pos (suc n)) = ground arith
level_of_positive (negsuc n) = ground arith

pub count_super-register :
    (lib : Libraries) (username password : List ℕ) (level : ℤ) (hashed : Result (List ℕ))
    (db : Accounts)
    → count_super (register lib username password level hashed db).1.users ≤ count_super db.users
unfolding register count_super
count_super-register lib username password level hashed db = ground (arith, level_of_positive level)

abbrev pub AllLower : Result (Account → Account) → Type 0
AllLower (err e) = Unit {0}
AllLower (ok change) = Lowers change

pub change_password-AllLower :
    (lib : Libraries) (password : List ℕ) (hashed : Result (List ℕ))
    → AllLower (change_password lib password hashed)
change_password-AllLower lib password (err e) = elim (Bool-cases (is_empty password)) [
  | inl b ↦ rw b (λ u. omega arith)
  | inr b ↦ rw b tt
]
change_password-AllLower lib password (ok hash) = elim (Bool-cases (is_empty password)) [
  | inl b ↦ rw b (λ u. omega arith)
  | inr b ↦ rw b (λ u. omega arith)
]

change_level-AllLower : (level : Option ℤ) → AllLower (change_level level)
change_level-AllLower none = λ u. omega arith
change_level-AllLower (some level) = elim (Bool-cases (leb_ℤ admin level)) [
  | inl b ↦ rw b (λ u. ground (arith, above-admin level b))
  | inr b ↦ rw b tt
]

change_status-AllLower : (status : Option ℤ) → AllLower (change_status status)
change_status-AllLower none = λ u. omega arith
change_status-AllLower (some status) =
    elim (Bool-cases (is_active status || (leb_ℤ status (pos 0) && leb_ℤ (pos 0) status))) [
      | inl b ↦ rw b (λ u. omega arith)
      | inr b ↦ rw b tt
    ]

change_quota-AllLower : (quota : Option ℤ) → AllLower (change_quota quota)
change_quota-AllLower none = λ u. omega arith
change_quota-AllLower (some quota) = elim (Bool-cases (leb_ℤ (pos 0) quota)) [
  | inl b ↦ rw b (λ u. omega arith)
  | inr b ↦ rw b tt
]

pub change_texts-lower :
    (name email : List ℕ) (u : Account)
    → super_of (change_email email (change_name name u)) ≡ super_of u
change_texts-lower name email u = ground arith

chained_lower :
    (c1 c2 c3 c4 : Account → Account) (name email : List ℕ)
    → Lowers c1
    → Lowers c2
    → Lowers c3
    → Lowers c4
    → Lowers (λ u. c4 (c3 (c2 (change_email email (change_name name (c1 u))))))
chained_lower c1 c2 c3 c4 name email l1 l2 l3 l4 u =
    let u1 = c1 u in
    let u2 = change_email email (change_name name u1) in
    omega (arith, l1 u, change_texts-lower name email u1, l2 u2, l3 (c2 u2), l4 (c3 (c2 u2)))

pub changes_of-AllLower :
    (lib : Libraries) (input : UpdateUserInput) (hashed : Result (List ℕ))
    → AllLower (changes_of lib input hashed)
unfolding changes_of
changes_of-AllLower lib input hashed =
    elim (Result-cases (change_password lib input.password hashed)) [
      | inr (e, p) ↦ rw (p, changes_of) tt
      | inl (c1, p) ↦ elim (Result-cases (change_level input.permission_level)) [
        | inr (e, q) ↦ rw (p, changes_of, q) tt
        | inl (c2, q) ↦ elim (Result-cases (change_status input.status)) [
          | inr (e, r) ↦ rw (p, changes_of, q, r) tt
          | inl (c3, r) ↦ elim (Result-cases (change_quota input.quota)) [
            | inr (e, s) ↦ rw (p, changes_of, q, r, s) tt
            | inl (c4, s) ↦
                let l1 = rw p at (change_password-AllLower lib input.password hashed) in
                let l2 = rw q at (change_level-AllLower input.permission_level) in
                let l3 = rw r at (change_status-AllLower input.status) in
                let l4 = rw s at (change_quota-AllLower input.quota) in
                elim (Bool-cases (updates_nothing input)) [
                  | inl b ↦ rw (p, changes_of, q, r, s, b) tt
                  | inr b ↦
                      rw (p, changes_of, q, r, s, b)
                        (chained_lower c1 c2 c3 c4 input.name input.email l1 l2 l3 l4)
                ]
          ]
        ]
      ]
    ]
