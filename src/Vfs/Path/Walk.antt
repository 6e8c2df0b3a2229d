-- ===== src/Vfs/Path/Walk.antt =====
-- The walk of `vfs_resolve` over the components: what it keeps.
use luminary.Base.{
  ℕ, suc, ◌+◌, ◌≤◌, ◌≡◌, refl, sym, ◌∙◌, true, false, List, [], ◌∷◌, ◌++◌, append_assoc, arith,
  length, length-append, ltb, Bool-cases, inl, inr,
}
use mathlib.Core.List.{reverse, reverse-cons}
use luminary.Vfs.{Bytes}
use luminary.Vfs.Path.{is_dot, is_dot_dot, drop_last, keep, walk}
use luminary.Vfs.Path.Components.{IsName, AreNames, weight}

-- A name that is neither `.` nor `..`.
abbrev pub IsPlain : Bytes → Type 0
IsPlain s = IsName s × (is_dot s ≡ false) × (is_dot_dot s ≡ false)

abbrev pub ArePlain : List Bytes → Type 0
ArePlain [] = Unit
ArePlain (s ∷ ss) = IsPlain s × ArePlain ss

pub ArePlain-AreNames : (ss : List Bytes) → ArePlain ss → AreNames ss
ArePlain-AreNames [] plain = tt
ArePlain-AreNames (s ∷ ss) (plain, rest) = (plain.0, ArePlain-AreNames ss rest)

-- The walk keeps plain names, at most 64, of no more bytes than it was given.
pub record Kept (bound : ℕ) (segs : List Bytes) : Type 0 where
  pub plain : ArePlain segs
  pub few : length segs ≤ 64
  pub short : weight segs ≤ bound

drop_last-Kept : (bound : ℕ) (segs : List Bytes) → Kept bound segs → Kept bound (drop_last segs)
unfolding weight
drop_last-Kept bound [] kept = kept
drop_last-Kept bound (s ∷ segs) kept = record {
  plain = kept.plain.1;
  few = omega (arith, kept.few);
  short = omega (arith, kept.short);
}

pub weaken : (a b : ℕ) (segs : List Bytes) → a ≤ b → Kept a segs → Kept b segs
weaken a b segs h kept = record {
  plain = kept.plain;
  few = kept.few;
  short = omega (arith, kept.short);
}

keep-Kept :
    (bound : ℕ) (s : Bytes) (segs : List Bytes)
    → IsName s
    → Kept bound segs
    → Kept (bound + suc (length s)) (keep s segs)
unfolding keep weight
keep-Kept bound s segs name kept =
    let later = weaken bound (bound + suc (length s)) segs (omega arith) kept in
    elim (Bool-cases (is_dot s)) [
      | inl here ↦ rw here later
      | inr other ↦ elim (Bool-cases (is_dot_dot s)) [
        | inl up ↦ rw (other, up) (drop_last-Kept _ segs later)
        | inr down ↦ elim (Bool-cases (ltb (length segs) 64)) [
          | inl room ↦
              rw (other, down, room)
                (record {
                  plain = ((name, other, down), kept.plain);
                  few = ground arith;
                  short = omega (arith, kept.short);
                })
          | inr full ↦ rw (other, down, full) later
        ]
      ]
    ]

pub walk-Kept :
    (ss segs : List Bytes) (bound : ℕ)
    → AreNames ss
    → Kept bound segs
    → Kept (bound + weight ss) (walk ss segs)
unfolding walk weight
walk-Kept [] segs bound names kept = weaken bound _ segs (omega arith) kept
walk-Kept (s ∷ ss) segs bound (name, names) kept =
    weaken _ _ _ (omega arith)
      (walk-Kept ss (keep s segs) (bound + suc (length s)) names (keep-Kept bound s segs name kept))

-- Of plain names, few enough, the walk keeps all.
pub walk-plain :
    (ss segs : List Bytes)
    → ArePlain ss
    → length ss + length segs ≤ 64
    → walk ss segs ≡ reverse ss ++ segs
unfolding walk keep
walk-plain [] segs plain few = refl
walk-plain (s ∷ ss) segs ((name, other, down), plain) few =
    let room : ltb (length segs) 64 ≡ true = ground arith in
    rw (walk, other, down, room)
      (walk-plain ss (s ∷ segs) plain (omega arith)
        ∙ rw reverse-cons (sym (append_assoc (reverse ss) (s ∷ []) segs)))

ArePlain-append : (xs ys : List Bytes) → ArePlain xs → ArePlain ys → ArePlain (xs ++ ys)
ArePlain-append [] ys plain plain' = plain'
ArePlain-append (x ∷ xs) ys (first, rest) plain' = (first, ArePlain-append xs ys rest plain')

weight-append : (xs ys : List Bytes) → weight (xs ++ ys) ≡ weight xs + weight ys
unfolding weight
weight-append [] ys = omega arith
weight-append (x ∷ xs) ys = omega (arith, weight-append xs ys)

length-reverse : (xs : List Bytes) → length (reverse xs) ≡ length xs
length-reverse [] = refl
length-reverse (x ∷ xs) =
    rw reverse-cons (omega (arith, length-append (reverse xs) (x ∷ []), length-reverse xs))

-- In order, the segments are what they were.
pub reverse-Kept : (bound : ℕ) (segs : List Bytes) → Kept bound segs → Kept bound (reverse segs)
unfolding weight
reverse-Kept bound [] kept = kept
reverse-Kept bound (s ∷ segs) kept =
    let rest =
      reverse-Kept (weight segs) segs
        (record { plain = kept.plain.1; few = omega (arith, kept.few); short = omega arith }) in
    rw reverse-cons (record {
      plain = ArePlain-append (reverse segs) (s ∷ []) rest.plain (kept.plain.0, tt);
      few = omega (arith, length-append (reverse segs) (s ∷ []), length-reverse segs, kept.few);
      short = omega (arith, weight-append (reverse segs) (s ∷ []), rest.short, kept.short);
    })
