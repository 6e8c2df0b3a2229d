-- ===== src/Heap/Cache.antt =====
-- The order in which a full large-object cache gives its blocks back.
use luminary.Base.{◌≡◌, refl, ap, List, [], ◌∷◌, ◌++◌, arith, false, ltb, length, length-append}
use luminary.Heap.{LargeEntry, move_last, large_cache_max}
use luminary.Heap.Free.{push_cached, evict}

move_last-append :
    (before : List LargeEntry) (last : LargeEntry)
    → move_last (before ++ (last ∷ [])) ≡ last ∷ before
unfolding move_last
move_last-append [] last = refl
move_last-append (e ∷ []) last = refl
move_last-append (e ∷ e₂ ∷ es) last = rw (move_last, move_last-append (e₂ ∷ es) last) refl

push_full :
    (e new last : LargeEntry) (between : List LargeEntry)
    → length between ≡ 6
    → push_cached new (e ∷ between ++ (last ∷ [])) ≡ (last ∷ between ++ (new ∷ []), e ∷ [])
unfolding push_cached evict
push_full e new last between six =
    let full : ltb (length (e ∷ between ++ (last ∷ []))) large_cache_max ≡ false =
      ground (arith, length-append between (last ∷ [])) in
    rw (full, move_last-append between last) refl

-- Of a full cache the first push gives back the block at index 0, but the second gives back the
-- block that was pushed last before the two, although the blocks between are older.
pub push_cached_order :
    (e last new₁ new₂ : LargeEntry) (between : List LargeEntry)
    → length between ≡ 6
    → let (cache, first_back) = push_cached new₁ (e ∷ between ++ (last ∷ [])) in
      (first_back ≡ e ∷ []) × ((push_cached new₂ cache).1 ≡ last ∷ [])
push_cached_order e last new₁ new₂ between six =
    rw (push_full e new₁ last between six)
      (refl, ap (λ out. out.1) (push_full last new₂ new₁ between six))
