-- ===== src/Vfs/File/Contents.antt =====
-- What a write makes of the bytes of a file, and the read that follows it.
use luminary.Base.{
  ℕ, zero, suc, ◌+◌, ◌-◌, ◌%◌, ◌≤◌, ◌<◌, ◌≡◌, ◌⊎◌, inl, inr, refl, ap, ap₂, ◌∙◌, true, false, none,
  some, List, [], ◌∷◌, arith, length, ltb, leb, if◌then◌else◌, update, update_self, Bool-cases,
}
use luminary.Vfs.{Node, u32, is_file, is_chardev}
use luminary.Vfs.File.{copy_out, copy_in, vfs_read, store}
use luminary.Vfs.File.Grow.{Capacity}

-- A byte outside what is written stays.
pub copy_in_outside :
    (buffer : ℕ → ℕ) (offset : ℕ) (bytes : List ℕ) (i : ℕ)
    → (i < offset) ⊎ (offset + length bytes ≤ i)
    → copy_in buffer offset bytes i ≡ buffer i
unfolding copy_in
copy_in_outside buffer offset [] i outside = refl
copy_in_outside buffer offset (c ∷ cs) i outside =
    copy_in_outside (update buffer offset c) (offset + 1) cs i (ground arith) ∙ ground arith

-- What is written is read back.
pub copy_out-copy_in :
    (buffer : ℕ → ℕ) (offset : ℕ) (bytes : List ℕ)
    → copy_out (copy_in buffer offset bytes) offset (length bytes) ≡ bytes
unfolding copy_out copy_in
copy_out-copy_in buffer offset [] = refl
copy_out-copy_in buffer offset (c ∷ cs) =
    ap₂ ◌∷◌
      (copy_in_outside (update buffer offset c) (offset + 1) cs offset (inl (omega arith))
        ∙ update_self buffer offset c)
      (copy_out-copy_in (update buffer offset c) (offset + 1) cs)

-- A byte of a file; a NULL buffer has none.
abbrev pub byte_at : Node → ℕ → ℕ
byte_at n i = elim n.buffer [ none ↦ 0 | some buffer ↦ buffer i ]

-- There is no buffer yet, or one of a capacity that the loop reaches from 64.
abbrev pub Buffered : Node → Type 0
Buffered n =
    ((n.buf_cap ≡ 0) × (n.buffer ≡ none))
    ⊎ ((d : ℕ) × (b : ℕ → ℕ) × (d ≤ 25) × Capacity d n.buf_cap × (n.buffer ≡ some b))

-- A regular file that can be written, as `vfs_creat` makes it and `vfs_write` leaves it.
pub record IsWritable (n : Node) : Type 0 where
  pub regular : is_file n ≡ true
  pub no_device : is_chardev n ≡ false
  pub open_for_writing : n.writable ≡ true
  pub within : n.size ≤ n.buf_cap
  pub capacity : Buffered n

-- What a write leaves of a file.
pub record Stores (n : Node) (offset : ℕ) (bytes : List ℕ) (n' : Node) : Type 0 where
  pub writable : IsWritable n'
  pub size :
      n'.size ≡ (if ltb n.size (offset + length bytes) then offset + length bytes else n.size)
  pub back : vfs_read (some n') offset (length bytes) ≡ (length bytes, bytes)
  pub others :
      (i : ℕ) → i < n.size → (i < offset) ⊎ (offset + length bytes ≤ i) → byte_at n' i ≡ byte_at n i

-- A read inside a file.
pub read_within :
    (n : Node) (buffer : ℕ → ℕ) (offset len : ℕ)
    → is_file n ≡ true
    → is_chardev n ≡ false
    → n.buffer ≡ some buffer
    → offset + len ≤ n.size
    → vfs_read (some n) offset len ≡ (len, copy_out buffer offset len)
unfolding vfs_read
read_within n buffer offset zero regular no_device here within =
    elim (Bool-cases (leb n.size offset)) [
      | inl past ↦ rw (no_device, here, regular, past) refl
      | inr before ↦
          let none_more : ltb (n.size - offset) 0 ≡ false = ground arith in
          rw (no_device, here, regular, before, none_more) refl
    ]
read_within n buffer offset (suc len) regular no_device here within =
    let before : leb n.size offset ≡ false = ground arith in
    let fits : ltb (n.size - offset) (suc len) ≡ false = ground arith in
    rw (no_device, here, regular, before, fits) refl

-- The file that a copy into its buffer leaves.
pub store-Stores :
    (n : Node) (cap d : ℕ) (old buffer : ℕ → ℕ) (offset : ℕ) (bytes : List ℕ)
    → IsWritable n
    → Capacity d cap
    → d ≤ 25
    → offset + length bytes < u32
    → offset + length bytes ≤ cap
    → n.size ≤ cap
    → ((i : ℕ) → i < n.size → buffer i ≡ byte_at n i)
    → Stores n offset bytes (store (record n { buf_cap = cap }) buffer offset bytes)
unfolding store
store-Stores n cap d old buffer offset bytes v capacity few small fits within same =
    let end : (offset + length bytes) % u32 ≡ offset + length bytes = omega arith in
    rw end (record {
      writable = record {
        regular = v.regular;
        no_device = v.no_device;
        open_for_writing = v.open_for_writing;
        within = ground arith;
        capacity = inr (d, copy_in buffer offset bytes, few, capacity, refl);
      };
      size = refl;
      back =
          read_within _ (copy_in buffer offset bytes) offset (length bytes) v.regular v.no_device
            refl (ground arith)
          ∙ ap (λ xs. (length bytes, xs)) (copy_out-copy_in buffer offset bytes);
      others = λ i inside outside. copy_in_outside buffer offset bytes i outside ∙ same i inside;
    })
