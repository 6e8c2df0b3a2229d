-- ===== src/Ext2/Disk/Blocks.antt =====
-- The entries in the blocks of a directory of src/fs/ext2.c.
use luminary.Base.{
  ℕ, ◌<◌, ◌≡◌, ◌≢◌, inl, inr, refl, ap, ap₂, sym, subst, Bool, none, some, List, [], ◌∷◌, ◌++◌,
  length, arith, update, update_ne,
}
use luminary.Vfs.{u32}
use luminary.Ext2.Dir.{Buffer, Dirent, add_in_block, remove_in_block}
use luminary.Ext2.Dir.Tiles.{Tiles, entries-Tiles}
use luminary.Ext2.Dir.Add.{add_in_block_lem}
use luminary.Ext2.Dir.Remove.{Leaves, removed, removed_behind, remove_in_block_refines}
use luminary.Ext2.Dir.RoundTrip.{HasNone, remove-add_in_block}
use luminary.Ext2.Disk.{listed, walk_direct}

abbrev pub IsNew : (phys : ℕ) → List ℕ → Type 0
IsNew phys [] = Unit
IsNew phys (p ∷ ps) = (phys ≢ p) × IsNew phys ps

abbrev pub Distinct : List ℕ → Type 0
Distinct [] = Unit
Distinct (p ∷ ps) = IsNew p ps × Distinct ps

-- The entries of each of some blocks.
abbrev pub Holds : (g_block_size : ℕ) → (blocks : ℕ → Buffer) → List ℕ → List (List Dirent) → Type 0
Holds g_block_size blocks [] [] = Unit
Holds g_block_size blocks [] (es ∷ ess) = ⊥
Holds g_block_size blocks (p ∷ ps) [] = ⊥
Holds g_block_size blocks (p ∷ ps) (es ∷ ess) =
    Tiles (blocks p) 0 es g_block_size × Holds g_block_size blocks ps ess

abbrev pub NoneHave : (child_ino : ℕ) → List (List Dirent) → Type 0
NoneHave child_ino [] = Unit
NoneHave child_ino (es ∷ ess) = HasNone child_ino es × NoneHave child_ino ess

abbrev pub all_listed : List (List Dirent) → List (ℕ × List ℕ)
all_listed [] = []
all_listed (es ∷ ess) = listed es ++ all_listed ess

pub Holds-update :
    (g_block_size : ℕ) (blocks : ℕ → Buffer) (phys : ℕ) (bbuf : Buffer) (ps : List ℕ)
    (ess : List (List Dirent))
    → IsNew phys ps
    → Holds g_block_size blocks ps ess
    → Holds g_block_size (update blocks phys bbuf) ps ess
Holds-update g_block_size blocks phys bbuf [] [] new h = h
Holds-update g_block_size blocks phys bbuf [] (es ∷ ess) new h = h
Holds-update g_block_size blocks phys bbuf (p ∷ ps) [] new h = h
Holds-update g_block_size blocks phys bbuf (p ∷ ps) (es ∷ ess) (other, new) (t, h) = (
  subst (λ b. Tiles b 0 es g_block_size) (sym (update_ne blocks bbuf other)) t,
  Holds-update g_block_size blocks phys bbuf ps ess new h,
)

pub Holds-walk_direct :
    (g_block_size : ℕ) (kmalloc_ok : ℕ → Bool) (blocks : ℕ → Buffer) (ps : List ℕ)
    (ess : List (List Dirent))
    → Holds g_block_size blocks ps ess
    → walk_direct g_block_size kmalloc_ok ps blocks ≡ all_listed ess
unfolding walk_direct
Holds-walk_direct g_block_size kmalloc_ok blocks [] [] h = refl
Holds-walk_direct g_block_size kmalloc_ok blocks [] (es ∷ ess) h = absurd h
Holds-walk_direct g_block_size kmalloc_ok blocks (p ∷ ps) [] h = absurd h
Holds-walk_direct g_block_size kmalloc_ok blocks (p ∷ ps) (es ∷ ess) (t, h) =
    ap₂ (λ a b. listed a ++ b)
      (entries-Tiles g_block_size g_block_size (blocks p) 0 es t (omega arith))
      (Holds-walk_direct g_block_size kmalloc_ok blocks ps ess h)

HasNone-removed_behind :
    (child_ino : ℕ) (prev : Dirent) (es : List Dirent)
    → HasNone child_ino es
    → removed_behind child_ino prev es ≡ none
unfolding removed_behind
HasNone-removed_behind child_ino prev [] h = refl
HasNone-removed_behind child_ino prev (e ∷ es) (other, h) =
    rw (other, HasNone-removed_behind child_ino e es h) refl

HasNone-removed :
    (child_ino : ℕ) (es : List Dirent) → HasNone child_ino es → removed child_ino es ≡ none
unfolding removed
HasNone-removed child_ino [] h = refl
HasNone-removed child_ino (e ∷ es) (other, h) =
    rw (other, HasNone-removed_behind child_ino e es h) refl

-- A block without an entry of the inode is searched in vain.
pub remove_in_block-none :
    (g_block_size child_ino : ℕ) (buf : Buffer) (es : List Dirent)
    → g_block_size < 65536
    → Tiles buf 0 es g_block_size
    → HasNone child_ino es
    → remove_in_block g_block_size g_block_size buf child_ino 0 none ≡ none
remove_in_block-none g_block_size child_ino buf es small t h =
    subst
      (λ r.
        Leaves g_block_size buf 0 r
          (remove_in_block g_block_size g_block_size buf child_ino 0 none))
      (HasNone-removed child_ino es h)
      (remove_in_block_refines g_block_size child_ino small buf es t)

-- A list that is not empty has a last entry.
with_last :
    (e : Dirent) (es : List Dirent)
    → (front : List Dirent) × (d : Dirent) × (e ∷ es ≡ front ++ (d ∷ []))
with_last e [] = ([], e, refl)
with_last e (d ∷ ds) =
    let (front, l, same) = with_last d ds in (e ∷ front, l, ap (λ xs. e ∷ xs) same)

-- An entry that goes into a block can be taken out again.
pub remove_in_block-again :
    (g_block_size child_ino : ℕ) (name : List ℕ) (file_type : ℕ) (buf bbuf : Buffer)
    (es : List Dirent)
    → 0 < g_block_size
    → g_block_size < 65536
    → child_ino < u32
    → length name < 256
    → Tiles buf 0 es g_block_size
    → HasNone child_ino es
    → add_in_block g_block_size buf child_ino name file_type ≡ some bbuf
    → (buf'' : Buffer) × (remove_in_block g_block_size g_block_size bbuf child_ino 0 none
        ≡ some buf'')
      × Tiles buf'' 0 es g_block_size
remove_in_block-again g_block_size child_ino name file_type buf bbuf [] large small ino short t h
      made =
    absurd (omega (arith, t, large))
remove_in_block-again g_block_size child_ino name file_type buf bbuf (e ∷ es) large small ino short
      t h made =
    let (front, d, same) = with_last e es in
    let t' = subst (λ xs. Tiles buf 0 xs g_block_size) same t in
    let h' = subst (HasNone child_ino) same h in
    elim (add_in_block_lem g_block_size buf child_ino name file_type front d t' small ino short) [
      | inr (_, full) ↦ absurd cc
      | inl (room, _) ↦
          let (buf', buf'', made', gone, t'') =
            remove-add_in_block g_block_size buf child_ino name file_type front d t' h' small ino
              short room in
          let it : buf' ≡ bbuf = cc in
          (
            buf'',
            subst (λ b. remove_in_block g_block_size g_block_size b child_ino 0 none ≡ some buf'')
                it gone,
            subst (λ xs. Tiles buf'' 0 xs g_block_size) (sym same) t'',
          )
    ]

pub Holds-append :
    (g_block_size : ℕ) (blocks : ℕ → Buffer) (ps : List ℕ) (ess : List (List Dirent)) (p : ℕ)
    (es : List Dirent)
    → Holds g_block_size blocks ps ess
    → Tiles (blocks p) 0 es g_block_size
    → Holds g_block_size blocks (ps ++ (p ∷ [])) (ess ++ (es ∷ []))
Holds-append g_block_size blocks [] [] p es h t = (t, tt)
Holds-append g_block_size blocks [] (es' ∷ ess) p es h t = absurd h
Holds-append g_block_size blocks (q ∷ ps) [] p es h t = absurd h
Holds-append g_block_size blocks (q ∷ ps) (es' ∷ ess) p es (t', h) t =
    (t', Holds-append g_block_size blocks ps ess p es h t)

pub unused-listed : (e : Dirent) → listed (record e { inode = 0 } ∷ []) ≡ []
unfolding listed
unused-listed e = refl

-- A block with no entry in use adds nothing.
pub all_listed-append :
    (ess : List (List Dirent)) (es : List Dirent)
    → listed es ≡ []
    → all_listed (ess ++ (es ∷ [])) ≡ all_listed ess
all_listed-append [] es unused = rw unused refl
all_listed-append (d ∷ ess) es unused = ap (λ xs. listed d ++ xs) (all_listed-append ess es unused)
