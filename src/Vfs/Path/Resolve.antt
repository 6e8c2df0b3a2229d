-- ===== src/Vfs/Path/Resolve.antt =====
-- What `vfs_resolve` returns.
use luminary.Base.{
  ℕ, zero, suc, ◌+◌, ◌-◌, ◌≤◌, ◌≡◌, refl, ap, ◌∙◌, true, false, not, ◌&&◌, some, List, [], ◌∷◌,
  ◌++◌, append-nil, append_assoc, arith, length, length-append, length-take, take, drop, ltb, ◌==◌,
  Bool-cases, inl, inr,
}
use mathlib.Core.List.{reverse, reverse-reverse}
use luminary.Vfs.{Bytes, vfs_path_max}
use luminary.Vfs.Path.{
  slash, components, append_bounded, last_byte, directory, raw_path, walk, emit_bytes, emit,
  vfs_resolve,
}
use luminary.Vfs.Path.Components.{
  lead, join, weight, length-lead, components-AreNames, components-join,
}
use luminary.Vfs.Path.Weight.{weight-components}
use luminary.Vfs.Path.Walk.{
  ArePlain, ArePlain-AreNames, Kept, weaken, walk-Kept, walk-plain, reverse-Kept,
}

emit_bytes_room : (s out : Bytes) → length out + length s ≤ 255 → emit_bytes s out ≡ some (out ++ s)
unfolding emit_bytes
emit_bytes_room [] out fits = rw append-nil refl
emit_bytes_room (c ∷ cs) out fits =
    let room : ltb (length out) (vfs_path_max - 1) ≡ true = ground arith in
    rw (emit_bytes, room)
      (emit_bytes_room cs (out ++ (c ∷ [])) (omega (arith, length-append out (c ∷ [])))
        ∙ ap some (append_assoc out (c ∷ []) cs))

emit-lead :
    (ss : List Bytes) (out : Bytes)
    → length out + weight ss ≤ 255
    → emit false ss out ≡ some (out ++ lead ss)
unfolding emit weight
emit-lead [] out fits = rw append-nil refl
emit-lead (s ∷ ss) out fits =
    let room : ltb (length out) (vfs_path_max - 1) ≡ true = ground arith in
    let slashed = length-append out (slash ∷ []) in
    rw (emit, room, emit_bytes_room s (out ++ (slash ∷ [])) (omega arith))
      (emit-lead ss ((out ++ (slash ∷ [])) ++ s)
          (omega (arith, length-append (out ++ (slash ∷ [])) s))
        ∙ ap some (
            append_assoc (out ++ (slash ∷ [])) s (lead ss)
            ∙ append_assoc out (slash ∷ []) (s ++ lead ss)))

emit-join :
    (ss : List Bytes) (out : Bytes)
    → length out + weight ss ≤ 256
    → emit true ss out ≡ some (out ++ join ss)
unfolding emit weight
emit-join [] out fits = rw append-nil refl
emit-join (s ∷ ss) out fits =
    rw (emit, emit_bytes_room s out (omega arith))
      (emit-lead ss (out ++ s) (omega (arith, length-append out s))
        ∙ ap some (append_assoc out s (lead ss)))

append_bounded-length : (raw s : Bytes) → length raw ≤ 255 → length (append_bounded raw s) ≤ 255
unfolding append_bounded
append_bounded-length raw s fits =
    omega (arith, length-append raw (take (255 - length raw) s), length-take (255 - length raw) s)

directory-length : (cwd : Bytes) → length (directory cwd) ≤ 255
unfolding directory
directory-length cwd =
    let raw = append_bounded [] cwd in
    let fits = append_bounded-length [] cwd (omega arith) in
    elim (Bool-cases (ltb 1 (length raw) && not (last_byte raw == slash))) [
      | inl open_end ↦ rw open_end (append_bounded-length raw (slash ∷ []) fits)
      | inr closed ↦ rw closed fits
    ]

raw_path-length : (cwd path : Bytes) → length (raw_path cwd path) ≤ 255
unfolding raw_path
raw_path-length cwd [] = directory-length cwd
raw_path-length cwd (c ∷ cs) = elim (Bool-cases (c == slash)) [
  | inl absolute ↦ rw absolute (append_bounded-length [] (c ∷ cs) (omega arith))
  | inr relative ↦
      rw relative (append_bounded-length (directory cwd) (c ∷ cs) (directory-length cwd))
]

length-drop_one : (p : Bytes) → length p ≤ 255 → length (drop 1 p) ≤ 254
length-drop_one [] fits = omega arith
length-drop_one (c ∷ cs) fits = omega arith

-- The names that a resolution comes to.
names : (cwd path : Bytes) → List Bytes
names cwd path = reverse (walk (components (drop 1 (raw_path cwd path))) [])

names-Kept : (cwd path : Bytes) → Kept 255 (names cwd path)
unfolding names weight
names-Kept cwd path =
    let p = drop 1 (raw_path cwd path) in
    let short = length-drop_one (raw_path cwd path) (raw_path-length cwd path) in
    let none_kept : Kept 0 [] = record { plain = tt; few = omega arith; short = omega arith } in
    reverse-Kept 255 _ (
      weaken (0 + weight (components p)) 255 _ (omega (arith, weight-components p, short))
        (walk-Kept (components p) [] 0 (components-AreNames p) none_kept))

vfs_resolve-names : (cwd path : Bytes) → vfs_resolve cwd path ≡ some (slash ∷ join (names cwd path))
unfolding vfs_resolve names
vfs_resolve-names cwd path =
    emit-join (names cwd path) (slash ∷ []) (omega (arith, (names-Kept cwd path).short))

length-join : (ss : List Bytes) → weight ss ≤ 255 → length (slash ∷ join ss) ≤ 255
unfolding weight
length-join [] short = omega arith
length-join (s ∷ ss) short = omega (arith, length-append s (lead ss), length-lead ss)

take-short : (n : ℕ) (xs : Bytes) → length xs ≤ n → take n xs ≡ xs
take-short zero [] h = refl
take-short zero (x ∷ xs) h = absurd (omega arith)
take-short (suc n) [] h = refl
take-short (suc n) (x ∷ xs) h = ap (◌∷◌ x) (take-short n xs (omega arith))

same_names :
    (cwd : Bytes) (ss : List Bytes)
    → Kept 255 ss
    → length (slash ∷ join ss) ≤ 255
    → names cwd (slash ∷ join ss) ≡ ss
unfolding names raw_path append_bounded
same_names cwd ss kept fits =
    ap (λ raw. reverse (walk (components (drop 1 raw)) [])) (take-short 255 (slash ∷ join ss) fits)
    ∙ ap (λ xs. reverse (walk xs [])) (components-join ss (ArePlain-AreNames ss kept.plain))
    ∙ ap reverse (walk-plain ss [] kept.plain (omega (arith, kept.few)) ∙ append-nil (reverse ss))
    ∙ reverse-reverse ss

-- A path of at most 64 plain names resolves to itself.
resolve_plain :
    (cwd : Bytes) (ss : List Bytes)
    → Kept 255 ss
    → vfs_resolve cwd (slash ∷ join ss) ≡ some (slash ∷ join ss)
resolve_plain cwd ss kept =
    vfs_resolve-names cwd (slash ∷ join ss)
    ∙ ap (λ xs. some (slash ∷ join xs)) (same_names cwd ss kept (length-join ss kept.short))

-- `vfs_resolve` never returns NULL: whatever the working directory and the path, the result is a
-- slash and at most 64 names joined by slashes, at most 255 bytes in all, no name being empty, `.`
-- or `..`, or holding a slash; and from every directory it resolves to itself.
pub vfs_resolve_lem :
    (cwd path dir : Bytes)
    → (names : List Bytes) × (vfs_resolve cwd path ≡ some (slash ∷ join names))
      × ArePlain names
      × (length names ≤ 64)
      × (length (slash ∷ join names) ≤ 255)
      × (vfs_resolve dir (slash ∷ join names) ≡ some (slash ∷ join names))
vfs_resolve_lem cwd path dir =
    let kept = names-Kept cwd path in
    (
      names cwd path,
      vfs_resolve-names cwd path,
      kept.plain,
      kept.few,
      length-join (names cwd path) kept.short,
      resolve_plain dir (names cwd path) kept,
    )
