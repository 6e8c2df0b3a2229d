-- ===== src/Pipe/Ring.antt =====
-- The bytes in a pipe, and the non-blocking write.
use luminary.Base.{
  ℕ, zero, suc, ◌+◌, ◌-◌, ◌%◌, ◌<◌, ◌≡◌, refl, ap, sym, Bool-cases, inl, inr, ◌∙◌, List, [], ◌∷◌,
  ◌++◌, arith, min, ltb, length, take, update, window, window-mod, window-update, length-window,
  append-nil, append_assoc,
}
use luminary.Pipe.{
  Pipe, pipe_used, pipe_free, put, oldest, advance, pipe_write_nb, pipe_buf_size, u32,
}

-- The indices are 32-bit, and `head` runs at most 4095 ahead of `tail`.
pub record IsValid (p : Pipe) : Type 0 where
  pub head_32 : p.head < u32
  pub tail_32 : p.tail < u32
  pub gap : (p.head + u32 - p.tail) % u32 < pipe_buf_size

abbrev pub contents : Pipe → List ℕ
contents p = window p.buf pipe_buf_size p.tail (pipe_used p)

pub length-contents : (p : Pipe) → length (contents p) ≡ pipe_used p
length-contents p = length-window p.buf pipe_buf_size p.tail (pipe_used p)

pub pipe_free-length : (p : Pipe) → IsValid p → pipe_free p + length (contents p) ≡ 4095
unfolding pipe_free pipe_used
pipe_free-length p v = omega (arith, length-contents p)

used-put :
    (p : Pipe) (c : ℕ) → IsValid p → pipe_used p < 4095 → pipe_used (put p c) ≡ suc (pipe_used p)
unfolding pipe_used put
used-put p c v room = omega arith

pub put-IsValid : (p : Pipe) (c : ℕ) → IsValid p → pipe_used p < 4095 → IsValid (put p c)
unfolding pipe_used put
put-IsValid p c v room = omega arith

head_is_end :
    (p : Pipe) → IsValid p → p.head % pipe_buf_size ≡ (p.tail + pipe_used p) % pipe_buf_size
unfolding pipe_used
head_is_end p v = omega arith

pub contents-put :
    (p : Pipe) (c : ℕ)
    → IsValid p
    → pipe_used p < 4095
    → contents (put p c) ≡ contents p ++ (c ∷ [])
unfolding put
contents-put p c v room =
    ap (window (update p.buf (p.head % pipe_buf_size) c) pipe_buf_size p.tail) (used-put p c v room)
    ∙ window-update p.buf pipe_buf_size p.tail (pipe_used p) (p.head % pipe_buf_size) c
        (omega arith) (head_is_end p v)

used-advance : (p : Pipe) → IsValid p → 0 < pipe_used p → pipe_used p ≡ suc (pipe_used (advance p))
unfolding pipe_used advance
used-advance p v some_left = omega arith

pub advance-IsValid : (p : Pipe) → IsValid p → 0 < pipe_used p → IsValid (advance p)
unfolding pipe_used advance
advance-IsValid p v some_left = omega arith

tail-advance : (p : Pipe) → (p.tail + 1) % pipe_buf_size ≡ (advance p).tail % pipe_buf_size
unfolding advance
tail-advance p = omega arith

pub contents-advance :
    (p : Pipe) → IsValid p → 0 < pipe_used p → contents p ≡ oldest p ∷ contents (advance p)
unfolding oldest advance
contents-advance p v some_left =
    ap (window p.buf pipe_buf_size p.tail) (used-advance p v some_left)
    ∙ ap (◌∷◌ (p.buf (p.tail % pipe_buf_size))) (
        window-mod p.buf pipe_buf_size (p.tail + 1) (advance p).tail (pipe_used (advance p))
          (tail-advance p))

-- What a run of writes leaves: as much of `src` as there was room for, at the end.
pub record Appends (p : Pipe) (src : List ℕ) (out : ℕ × Pipe) : Type 0 where
  pub count : out.0 ≡ min (length src) (pipe_free p)
  pub bytes : contents out.1 ≡ contents p ++ take (pipe_free p) src
  pub valid : IsValid out.1

pub free-put :
    (p : Pipe) (c : ℕ) → IsValid p → 0 < pipe_free p → pipe_free p ≡ suc (pipe_free (put p c))
unfolding pipe_free put
free-put p c v room = omega (arith, used-put p c v)

pub used_of_free : (p : Pipe) → 0 < pipe_free p → pipe_used p < 4095
unfolding pipe_free
used_of_free p room = omega arith

pub take-one : (n m : ℕ) (c : ℕ) (cs : List ℕ) → n ≡ suc m → take n (c ∷ cs) ≡ c ∷ take m cs
take-one n m c cs e = rw e

pub take_none : (n : ℕ) (cs : List ℕ) → n ≡ 0 → take n cs ≡ []
take_none n cs e = rw e

pub take-nil : (n : ℕ) → take {A = ℕ} n [] ≡ []
take-nil zero = refl
take-nil (suc n) = refl

pipe_write_nb-Appends : (src : List ℕ) (p : Pipe) → IsValid p → Appends p src (pipe_write_nb p src)
unfolding pipe_write_nb
pipe_write_nb-Appends [] p v = record {
  count = omega arith;
  bytes = rw (take-nil, append-nil);
  valid = v;
}
pipe_write_nb-Appends (c ∷ cs) p v = elim (Bool-cases (ltb 0 (pipe_free p))) [
  | inr full ↦ rw full (record {
    count = ground arith;
    bytes = rw (take_none (pipe_free p) (c ∷ cs) (ground arith), append-nil);
    valid = v;
  })
  | inl room ↦
      let some_room : 0 < pipe_free p = ground arith in
      let used = used_of_free p some_room in
      let one = free-put p c v some_room in
      let rest = pipe_write_nb-Appends cs (put p c) (put-IsValid p c v used) in
      rw room (record {
        count = omega (arith, rest.count, one);
        bytes =
            rest.bytes
            ∙ ap (λ xs. xs ++ take (pipe_free (put p c)) cs) (contents-put p c v used)
            ∙ append_assoc (contents p) (c ∷ []) (take (pipe_free (put p c)) cs)
            ∙ ap (◌++◌ (contents p)) (sym (take-one (pipe_free p) (pipe_free (put p c)) c cs one));
        valid = rest.valid;
      })
]

-- `pipe_write_nb` writes as many bytes as fit, in order, behind those that wait; it returns their
-- number and keeps the indices valid.
pipe_write_nb_lem :
    (p : Pipe) (src : List ℕ)
    → IsValid p
    → let (written, p') = pipe_write_nb p src in
      (written ≡ min (length src) (4095 - length (contents p)))
      × (contents p' ≡ contents p ++ take (4095 - length (contents p)) src)
      × IsValid p'
pipe_write_nb_lem p src v =
    let out = pipe_write_nb-Appends src p v in
    let room : 4095 - length (contents p) ≡ pipe_free p = omega (arith, pipe_free-length p v) in
    rw room (out.count, out.bytes, out.valid)
