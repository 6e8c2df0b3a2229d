-- ===== src/Vfs/File/Write.antt =====
-- `vfs_write` whole: what it stores, with and without growth, and where it does not come back.
use luminary.Base.{
  ℕ, ◌+◌, ◌%◌, ◌^◌, ◌≤◌, ◌<◌, ◌≡◌, inl, inr, refl, ap, ◌∙◌, true, false, Option, none, some, List,
  [], ◌∷◌, arith, length, ltb, ◌==◌, if◌then◌else◌, Bool-cases,
}
use luminary.Vfs.{Node, u32}
use luminary.Vfs.File.{
  vfs_read, grow, wrote, endless, store, grown, write_grown, write_in_place, vfs_write,
}
use luminary.Vfs.File.Grow.{Capacity, Capacity-bounds, Capacity-first, grow-Grows, grow_endless}
use luminary.Vfs.File.Contents.{byte_at, Buffered, IsWritable, Stores, store-Stores}

-- Where the loop starts.
start-Capacity :
    (n : Node)
    → IsWritable n
    → (d : ℕ) × (d ≤ 25) × Capacity d (if n.buf_cap == 0 then 64 else n.buf_cap)
start-Capacity n v = start_by v.capacity
  where
    start_by :
        Buffered n → (d : ℕ) × (d ≤ 25) × Capacity d (if n.buf_cap == 0 then 64 else n.buf_cap)
    start_by (inl (none_yet, _)) = rw none_yet (25, omega arith, Capacity-first)
    start_by (inr (d, _, few, capacity, _)) =
        let used : (n.buf_cap == 0) ≡ false = ground (arith, Capacity-bounds capacity) in
        rw used (d, few, capacity)

-- What was in the file is copied to the new buffer.
grown-same :
    (n : Node) (memory : ℕ → ℕ)
    → IsWritable n
    → (i : ℕ) → i < n.size
    → grown n memory i ≡ byte_at n i
grown-same n memory v i inside = same_by v.capacity
  where
    same_by : Buffered n → grown n memory i ≡ byte_at n i
    same_by (inl (none_yet, _)) = absurd (omega (arith, v.within))
    same_by (inr (d, b, _, _, here)) =
        let old : ltb i n.size ≡ true = ground arith in rw (here, old) refl

write_grown_found :
    (n : Node) (memory : ℕ → ℕ) (offset : ℕ) (bytes : List ℕ) (cap : ℕ)
    → grow 32 (if n.buf_cap == 0 then 64 else n.buf_cap) ((offset + length bytes) % u32) ≡ some cap
    → write_grown n (some memory) offset bytes
      ≡ wrote (length bytes) (store (record n { buf_cap = cap }) (grown n memory) offset bytes)
unfolding write_grown
write_grown_found n memory offset bytes cap e = rw (write_grown, e) refl

write_grown-Stores :
    (n : Node) (memory : ℕ → ℕ) (offset : ℕ) (bytes : List ℕ)
    → IsWritable n
    → offset + length bytes ≤ 2147483648
    → n.buf_cap < offset + length bytes
    → (n' : Node) × (write_grown n (some memory) offset bytes ≡ wrote (length bytes) n')
      × Stores n offset bytes n'
unfolding write_grown
write_grown-Stores n memory offset bytes v small short =
    let (d, few, capacity) = start-Capacity n v in
    let end : (offset + length bytes) % u32 ≡ offset + length bytes = omega arith in
    let found = grow-Grows 32 (offset + length bytes) capacity (omega arith) small in
    (
      store (record n { buf_cap = found.cap }) (grown n memory) offset bytes,
      write_grown_found n memory offset bytes found.cap
          (ap (grow 32 (if n.buf_cap == 0 then 64 else n.buf_cap)) end ∙ found.ends),
      store-Stores n found.cap found.doublings memory (grown n memory) offset bytes v found.capacity
          (omega (arith, found.fewer, few)) (omega arith) found.enough
          (omega (arith, v.within, found.enough)) (grown-same n memory v),
    )

-- No byte fits, and none is written.
nothing_stored :
    (n : Node) (offset : ℕ) (bytes : List ℕ)
    → IsWritable n
    → n.buffer ≡ none
    → n.buf_cap ≡ 0
    → offset + length bytes ≤ n.buf_cap
    → Stores n offset bytes n
unfolding vfs_read
nothing_stored n offset [] v null none_yet room = record {
  writable = v;
  size = ground arith;
  back = rw (v.no_device, null) refl;
  others = λ i inside outside. refl;
}
nothing_stored n offset (c ∷ cs) v null none_yet room = absurd (omega arith)

write_in_place-Stores :
    (n : Node) (memory : Option (ℕ → ℕ)) (offset : ℕ) (bytes : List ℕ)
    → IsWritable n
    → offset + length bytes ≤ n.buf_cap
    → offset + length bytes < u32
    → (n' : Node) × (write_in_place n offset bytes ≡ wrote (length bytes) n')
      × Stores n offset bytes n'
write_in_place-Stores n memory offset bytes v room small = in_place v.capacity
  where
    in_place :
        Buffered n
        → (n' : Node) × (write_in_place n offset bytes ≡ wrote (length bytes) n')
          × Stores n offset bytes n'
    in_place (inl (none_yet, null)) =
        (n, rw null refl, nothing_stored n offset bytes v null none_yet room)
    in_place (inr (d, b, few, capacity, here)) = (
      store n b offset bytes,
      rw here refl,
      store-Stores n n.buf_cap d b b offset bytes v capacity few small room v.within
          (λ i inside. rw here refl),
    )

-- Past the guards.
write_passes :
    (n : Node) (memory : Option (ℕ → ℕ)) (offset : ℕ) (bytes : List ℕ)
    → IsWritable n
    → offset + length bytes < u32
    → vfs_write false memory (some n) offset bytes ≡ (
        if ltb n.buf_cap (offset + length bytes)
        then write_grown n memory offset bytes
        else write_in_place n offset bytes)
unfolding vfs_write
write_passes n memory offset bytes v small =
    let end : (offset + length bytes) % u32 ≡ offset + length bytes = omega arith in
    let no_wrap : ltb (offset + length bytes) offset ≡ false = ground arith in
    simp (v.no_device, v.regular, v.open_for_writing, end, no_wrap) refl

-- A write of bytes that end at 2^31 at most into a writable file, where the directory is not
-- read-only and memory can be had, returns their number. The size becomes the end of what was
-- written, if that is more; a read there returns these bytes; the other bytes of the file stay; and
-- the file can be written again.
pub vfs_write_lem :
    (n : Node) (memory : ℕ → ℕ) (offset : ℕ) (bytes : List ℕ)
    → IsWritable n
    → offset + length bytes ≤ 2147483648
    → (n' : Node) × (vfs_write false (some memory) (some n) offset bytes ≡ wrote (length bytes) n')
      × Stores n offset bytes n'
vfs_write_lem n memory offset bytes v small =
    let passed = write_passes n (some memory) offset bytes v (omega arith) in
    elim (Bool-cases (ltb n.buf_cap (offset + length bytes))) [
      | inl short ↦
          let (n', same, stores) =
            write_grown-Stores n memory offset bytes v small (ground arith) in
          (
            n',
            passed
                ∙ ap
                    (λ b.
                      if b
                      then write_grown n (some memory) offset bytes
                      else write_in_place n offset bytes)
                    short
                ∙ same,
            stores,
          )
      | inr room ↦
          let (n', same, stores) =
            write_in_place-Stores n (some memory) offset bytes v (ground arith) (omega arith) in
          (
            n',
            passed
                ∙ ap
                    (λ b.
                      if b
                      then write_grown n (some memory) offset bytes
                      else write_in_place n offset bytes)
                    room
                ∙ same,
            stores,
          )
    ]

write_grown_endless :
    (n : Node) (memory : Option (ℕ → ℕ)) (offset : ℕ) (bytes : List ℕ)
    → grow 32 (if n.buf_cap == 0 then 64 else n.buf_cap) ((offset + length bytes) % u32) ≡ none
    → write_grown n memory offset bytes ≡ endless
unfolding write_grown
write_grown_endless n memory offset bytes e = rw (write_grown, e) refl

cap_bound : (n : Node) → IsWritable n → n.buf_cap ≤ 2147483648
cap_bound n v = bound_by v.capacity
  where
    bound_by : Buffered n → n.buf_cap ≤ 2147483648
    bound_by (inl (none_yet, _)) = omega arith
    bound_by (inr (d, _, _, capacity, _)) = omega (arith, Capacity-bounds capacity)

-- A write into a regular file that is writable, no device and not locked, which would end past 2^31
-- and before 2^32, does not come back: the loop that doubles the capacity never ends, however many
-- rounds it is given.
pub vfs_write_endless :
    (n : Node) (memory : Option (ℕ → ℕ)) (offset : ℕ) (bytes : List ℕ) (rounds : ℕ)
    → IsWritable n
    → 2147483648 < offset + length bytes
    → offset + length bytes < 2 ^ 32
    → (vfs_write false memory (some n) offset bytes ≡ endless)
      × (grow rounds (if n.buf_cap == 0 then 64 else n.buf_cap) (offset + length bytes) ≡ none)
vfs_write_endless n memory offset bytes rounds v large bound =
    let (d, few, capacity) = start-Capacity n v in
    let short : ltb n.buf_cap (offset + length bytes) ≡ true = ground (arith, cap_bound n v) in
    (
      write_passes n memory offset bytes v bound
          ∙ ap (λ b. if b then write_grown n memory offset bytes else write_in_place n offset bytes)
              short
          ∙ write_grown_endless n memory offset bytes (
              ap (grow 32 (if n.buf_cap == 0 then 64 else n.buf_cap)) (omega arith)
              ∙ grow_endless 32 (offset + length bytes) capacity large),
      grow_endless rounds (offset + length bytes) capacity large,
    )
