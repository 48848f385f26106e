-- ===== src/Smb/WriteCache/Order.antt =====
-- `sort.Slice` in `mergeLocked`: sorting a table with one segment more inserts that segment.
use orbit_cloud.Base.{ℕ, suc, ◌≤◌, ◌<◌, ◌≡◌, refl, ◌∙◌, ap, Bool, List, [], ◌∷◌, ◌++◌, arith}
use mathlib.Core.List.{append_assoc, append-nil}
use orbit_cloud.Smb.WriteCache.{WriteRange, goes_before, insert_by_off, sort_from, sort_by_off}
use orbit_cloud.Smb.WriteCache.Segments.{ApartFrom, Apart}

abbrev StartsBelow : ℕ → List WriteRange → Type 0
StartsBelow lo [] = Unit
StartsBelow lo (r ∷ rs) = (r.off < lo) × StartsBelow lo rs

StartsBelow-le :
    (lo hi : ℕ) (rs : List WriteRange) → lo ≤ hi → StartsBelow lo rs → StartsBelow hi rs
StartsBelow-le lo hi [] h b = tt
StartsBelow-le lo hi (r ∷ rs) h b = (omega arith, StartsBelow-le lo hi rs h b.1)

StartsBelow-append :
    (lo : ℕ) (rs : List WriteRange) (s : WriteRange)
    → StartsBelow lo rs
    → s.off < lo
    → StartsBelow lo (rs ++ s ∷ [])
StartsBelow-append lo [] s b h = (h, tt)
StartsBelow-append lo (r ∷ rs) s b h = (b.0, StartsBelow-append lo rs s b.1 h)

insert_at_end :
    (tie : Bool) (s : WriteRange) (rs : List WriteRange)
    → StartsBelow s.off rs
    → insert_by_off tie s rs ≡ rs ++ s ∷ []
unfolding insert_by_off goes_before
insert_at_end tie s [] b = refl
insert_at_end tie s (r ∷ rs) b = ground (arith, insert_at_end tie s rs b.1)

sort_from_sorted :
    (tie : Bool) (lo : ℕ) (done rs : List WriteRange) (s : WriteRange)
    → StartsBelow lo done
    → ApartFrom lo rs
    → sort_from tie done (rs ++ s ∷ []) ≡ insert_by_off tie s (done ++ rs)
unfolding sort_from
sort_from_sorted tie lo done [] s b a = rw append-nil
sort_from_sorted tie lo done (r ∷ rs) s b a =
    ap (λ d. sort_from tie d (rs ++ s ∷ []))
      (insert_at_end tie r done (StartsBelow-le lo r.off done a.0 b))
    ∙ sort_from_sorted tie (suc r.end) (done ++ r ∷ []) rs s
        (StartsBelow-append (suc r.end) done r (StartsBelow-le lo (suc r.end) done (omega arith) b)
          (omega arith))
        a.2
    ∙ ap (insert_by_off tie s) (append_assoc done (r ∷ []) rs)

-- A table whose segments lie apart is sorted, so one segment more is only inserted.
pub sort-append :
    (tie : Bool) (rs : List WriteRange) (s : WriteRange)
    → Apart rs
    → sort_by_off tie (rs ++ s ∷ []) ≡ insert_by_off tie s rs
unfolding sort_by_off
sort-append tie rs s a = sort_from_sorted tie 0 [] rs s tt a
