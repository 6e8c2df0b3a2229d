-- ===== src/Vfs/File/Grow.antt =====
-- The loop that doubles the capacity of a file's buffer.
use luminary.Base.{
  ℕ, zero, suc, ◌*◌, ◌%◌, ◌≤◌, ◌<◌, ◌≡◌, refl, true, false, Option, none, some, arith, ltb,
  Bool-cases, inl, inr,
}
use luminary.Vfs.{u32}
use luminary.Vfs.File.{grow}

-- A capacity that so many doublings take to 2^31.
pub data Capacity : ℕ → ℕ → Type 0 where
  top : {n : ℕ} → n ≡ 2147483648 → Capacity zero n
  half : {d n m : ℕ} → m ≡ n * 2 → Capacity d m → Capacity (suc d) n

pub Capacity-bounds : {d n : ℕ} → Capacity d n → (0 < n) × (n ≤ 2147483648)
Capacity-bounds (top e) = omega arith
Capacity-bounds (half {m = m} e c) = omega (arith, Capacity-bounds c)

double : (n : ℕ) {d m : ℕ} → m ≡ n * 2 → Capacity d m → n * 2 % u32 ≡ m
double n e c = omega (arith, Capacity-bounds c)

-- The loop ends, with a capacity that is enough.
pub record Grows (limit end : ℕ) (found : Option ℕ) : Type 0 where
  pub cap : ℕ
  pub doublings : ℕ
  pub ends : found ≡ some cap
  pub fewer : doublings ≤ limit
  pub enough : end ≤ cap
  pub capacity : Capacity doublings cap

more_limit : {d end : ℕ} {found : Option ℕ} → Grows d end found → Grows (suc d) end found
more_limit g = record {
  cap = g.cap;
  doublings = g.doublings;
  ends = g.ends;
  fewer = omega (arith, g.fewer);
  enough = g.enough;
  capacity = g.capacity;
}

pub grow-Grows :
    {d n : ℕ} (rounds end : ℕ)
    → Capacity d n
    → d < rounds
    → end ≤ 2147483648
    → Grows d end (grow rounds n end)
unfolding grow
grow-Grows zero end c h small = absurd (omega arith)
grow-Grows {n = n} (suc rounds) end (top e) h small =
    let enough : ltb n end ≡ false = ground arith in
    rw enough (record {
      cap = n;
      doublings = 0;
      ends = refl;
      fewer = omega arith;
      enough = omega arith;
      capacity = top e;
    })
grow-Grows {d} {n} (suc rounds) end (half {d = d'} {m = m} e c) h small =
    elim (Bool-cases (ltb n end)) [
      | inr enough ↦ rw enough (record {
        cap = n;
        doublings = suc d';
        ends = refl;
        fewer = omega arith;
        enough = ground arith;
        capacity = half e c;
      })
      | inl more ↦
          rw (more, double n e c) (more_limit (grow-Grows rounds end c (omega arith) small))
    ]

grow_zero : (rounds end : ℕ) → 0 < end → grow rounds 0 end ≡ none
unfolding grow
grow_zero zero end some_bytes = refl
grow_zero (suc rounds) end some_bytes =
    let more : ltb 0 end ≡ true = ground arith in rw more (grow_zero rounds end some_bytes)

-- Past 2^31 the capacity wraps to 0, and the loop does not end.
pub grow_endless :
    {d n : ℕ} (rounds end : ℕ) → Capacity d n → 2147483648 < end → grow rounds n end ≡ none
unfolding grow
grow_endless zero end c large = refl
grow_endless {n = n} (suc rounds) end (top e) large =
    let more : ltb n end ≡ true = ground arith in
    let wraps : n * 2 % u32 ≡ 0 = omega arith in
    rw (more, wraps) (grow_zero rounds end (omega arith))
grow_endless {n = n} (suc rounds) end (half e c) large =
    let more : ltb n end ≡ true = ground (arith, Capacity-bounds (half e c)) in
    rw (more, double n e c) (grow_endless rounds end c large)

-- Five doublings at once.
half_five :
    (n : ℕ) {d m : ℕ} → m ≡ n * 32 → Capacity d m → Capacity (suc (suc (suc (suc (suc d))))) n
half_five n e c = half {m = n * 2} refl (
    half {m = n * 4} (omega arith) (
      half {m = n * 8} (omega arith) (half {m = n * 16} (omega arith) (half (omega (arith, e)) c))))

-- The first capacity of a file.
pub Capacity-first : Capacity 25 64
Capacity-first = half_five 64 {m = 2048} refl (
    half_five 2048 {m = 65536} refl (
      half_five 65536 {m = 2097152} refl (
        half_five 2097152 {m = 67108864} refl
          (half_five 67108864 {m = 2147483648} refl (top refl)))))
