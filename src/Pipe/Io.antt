-- ===== src/Pipe/Io.antt =====
-- Reading and writing a pipe: what is delivered, and when the task sleeps.
use luminary.Base.{
  ℕ, zero, suc, ◌+◌, ◌-◌, ◌≤◌, ◌<◌, ◌≡◌, refl, sym, ap, ◌∙◌, Bool, false, ◌||◌, List, [], ◌∷◌, ◌++◌,
  arith, ◌==◌, if◌then◌else◌, length, length-append, take, drop, append-nil, append_assoc,
  Bool-cases, inl, inr,
}
use luminary.Pipe.{
  Pipe, Wakes, ReadResult, read, read_sleeps, WriteResult, wrote, write_sleeps, pipe_used,
  pipe_free, put, oldest, advance, read_loop, pipe_read, write_loop, pipe_write,
}
use luminary.Pipe.Ring.{
  IsValid, contents, length-contents, pipe_free-length, put-IsValid, contents-put, free-put,
  used_of_free, advance-IsValid, contents-advance, take-one,
}

-- A read that delivered the oldest `room` bytes after `out`.
abbrev Delivers : (room : ℕ) → (out : List ℕ) → Pipe → ReadResult → Type 0
Delivers room out p r =
    (p' : Pipe) × (r ≡ read (out ++ take room (contents p)) p')
    × (contents p' ≡ drop room (contents p))
    × IsValid p'

contents_none : (p : Pipe) → pipe_used p ≡ 0 → contents p ≡ []
contents_none p e = rw e

Delivers-none :
    (room : ℕ) (out : List ℕ) (p : Pipe) (r : ReadResult)
    → IsValid p
    → pipe_used p ≡ 0
    → r ≡ read out p
    → Delivers (suc room) out p r
Delivers-none room out p r v e same =
    (p, rw (contents_none p e, append-nil) same, rw (contents_none p e), v)

Delivers-step :
    (room : ℕ) (out : List ℕ) (p : Pipe) (r : ReadResult)
    → IsValid p
    → 0 < pipe_used p
    → Delivers room (out ++ (oldest p ∷ [])) (advance p) r
    → Delivers (suc room) out p r
Delivers-step room out p r v left (p', result, rest, valid) =
    let e = contents-advance p v left in
    (
      p',
      result
          ∙ ap (λ bytes. read bytes p')
              (append_assoc out (oldest p ∷ []) (take room (contents (advance p)))
                ∙ ap (λ xs. out ++ take (suc room) xs) (sym e)),
      rest ∙ ap (drop (suc room)) (sym e),
      valid,
    )

-- Once a byte is delivered, or while bytes wait, the loop does not sleep.
read_loop-Delivers :
    (nonblock : Bool) (wakes : Wakes) (room : ℕ) (out : List ℕ) (p : Pipe)
    → IsValid p
    → 0 < length out + pipe_used p
    → Delivers room out p (read_loop nonblock wakes room out p)
unfolding read_loop
read_loop-Delivers nonblock wakes zero out p v some_byte = (p, rw append-nil refl, refl, v)
read_loop-Delivers nonblock [] (suc room) out p v some_byte = elim (Bool-cases (pipe_used p == 0)) [
  | inl none_left ↦ Delivers-none room out p _ v (ground arith) (ground arith)
  | inr left ↦ Delivers-step room out p _ v (ground arith) (
      rw (left, read_loop)
        (read_loop-Delivers nonblock [] room (out ++ (oldest p ∷ [])) (advance p)
          (advance-IsValid p v (ground arith)) (omega (arith, length-append out (oldest p ∷ [])))))
]
read_loop-Delivers nonblock (wake ∷ wakes) (suc room) out p v some_byte =
    elim (Bool-cases (pipe_used p == 0)) [
      | inl none_left ↦ Delivers-none room out p _ v (ground arith) (ground arith)
      | inr left ↦ Delivers-step room out p _ v (ground arith) (
          rw (left, read_loop)
            (read_loop-Delivers nonblock (wake ∷ wakes) room (out ++ (oldest p ∷ [])) (advance p)
              (advance-IsValid p v (ground arith))
              (omega (arith, length-append out (oldest p ∷ [])))))
    ]

-- While bytes wait, a read never sleeps: it delivers the oldest of them, as many as were asked for
-- or as there are, and leaves the rest, with valid indices.
pub pipe_read_some :
    (nonblock : Bool) (wakes : Wakes) (len : ℕ) (p : Pipe)
    → IsValid p
    → 0 < length (contents p)
    → (p' : Pipe) × (pipe_read nonblock wakes len p ≡ read (take len (contents p)) p')
      × (contents p' ≡ drop len (contents p))
      × IsValid p'
unfolding pipe_read
pipe_read_some nonblock wakes len p v some_left =
    read_loop-Delivers nonblock wakes len [] p v (omega (arith, length-contents p))

-- A read of at least one byte from an empty pipe: it returns no byte (end of file) when no writer
-- is left or the task does not block; otherwise it sleeps, and after a wake it is a read of what
-- the others made of the pipe.
pipe_read_empty :
    (nonblock : Bool) (wake : Pipe → Pipe) (wakes : Wakes) (len : ℕ) (p : Pipe)
    → 0 < len
    → length (contents p) ≡ 0
    → let stops = p.write_refs == 0 || nonblock in
      (pipe_read nonblock [] len p ≡ (if stops then read [] p else read_sleeps p))
      × (pipe_read nonblock (wake ∷ wakes) len p
          ≡ (if stops then read [] p else pipe_read nonblock wakes len (wake p)))
unfolding pipe_read read_loop
pipe_read_empty nonblock wake wakes zero p some_room empty = absurd (omega arith)
pipe_read_empty nonblock wake wakes (suc len) p some_room empty =
    let none_left : pipe_used p ≡ 0 = omega (arith, length-contents p) in
    (ground arith, ground arith)

-- A write with room for everything.
abbrev Stores : List ℕ → ℕ → Pipe → WriteResult → Type 0
Stores src written p r =
    (p' : Pipe) × (r ≡ wrote (written + length src) p')
    × (contents p' ≡ contents p ++ src)
    × IsValid p'

Stores-step :
    (c : ℕ) (cs : List ℕ) (written : ℕ) (p : Pipe) (r : WriteResult)
    → IsValid p
    → 0 < pipe_free p
    → Stores cs (written + 1) (put p c) r
    → Stores (c ∷ cs) written p r
Stores-step c cs written p r v room (p', result, bytes, valid) = (
  p',
  result ∙ ap (λ n. wrote n p') (omega arith),
  bytes
      ∙ ap (λ xs. xs ++ cs) (contents-put p c v (used_of_free p room))
      ∙ append_assoc (contents p) (c ∷ []) cs,
  valid,
)

write_loop-Stores :
    (wakes : Wakes) (src : List ℕ) (written : ℕ) (p : Pipe)
    → IsValid p
    → length src ≤ pipe_free p
    → Stores src written p (write_loop wakes src written p)
unfolding write_loop
write_loop-Stores wakes [] written p v fits =
    (p, ap (λ n. wrote n p) (omega arith), rw append-nil, v)
write_loop-Stores [] (c ∷ cs) written p v fits =
    let room : (pipe_free p == 0) ≡ false = ground arith in
    Stores-step c cs written p _ v (omega arith) (
      rw (room, write_loop)
        (write_loop-Stores [] cs (written + 1) (put p c)
          (put-IsValid p c v (used_of_free p (omega arith))) (omega (arith, free-put p c v))))
write_loop-Stores (wake ∷ wakes) (c ∷ cs) written p v fits =
    let room : (pipe_free p == 0) ≡ false = ground arith in
    Stores-step c cs written p _ v (omega arith) (
      rw (room, write_loop)
        (write_loop-Stores (wake ∷ wakes) cs (written + 1) (put p c)
          (put-IsValid p c v (used_of_free p (omega arith))) (omega (arith, free-put p c v))))

-- A write into a pipe that some reader holds open, of no more bytes than fit (4095 less those that
-- wait), never sleeps: it returns the length and appends exactly these bytes, with valid indices.
pub pipe_write_fits :
    (wakes : Wakes) (src : List ℕ) (p : Pipe)
    → IsValid p
    → 0 < p.read_refs
    → length src + length (contents p) ≤ 4095
    → (p' : Pipe) × (pipe_write wakes src p ≡ wrote (length src) p')
      × (contents p' ≡ contents p ++ src)
      × IsValid p'
unfolding pipe_write
pipe_write_fits wakes src p v readers fits =
    let open_end : (p.read_refs == 0) ≡ false = ground arith in
    let (p', result, bytes, valid) =
      write_loop-Stores wakes src 0 p v (omega (arith, pipe_free-length p v)) in
    (p', rw open_end (result ∙ ap (λ n. wrote n p') (omega arith)), bytes, valid)

-- A write that fills the pipe.
abbrev Fills : List ℕ → ℕ → Pipe → WriteResult → Type 0
Fills src written p r =
    (p' : Pipe) × (r ≡ write_sleeps (written + pipe_free p) p')
    × (contents p' ≡ contents p ++ take (pipe_free p) src)
    × IsValid p'

read_refs-put : (p : Pipe) (c : ℕ) → (put p c).read_refs ≡ p.read_refs
unfolding put
read_refs-put p c = refl

write_loop-Fills :
    (src : List ℕ) (written : ℕ) (p : Pipe)
    → IsValid p
    → 0 < p.read_refs
    → pipe_free p < length src
    → Fills src written p (write_loop [] src written p)
unfolding write_loop
write_loop-Fills [] written p v readers full = absurd (omega arith)
write_loop-Fills (c ∷ cs) written p v readers full = elim (Bool-cases (pipe_free p == 0)) [
  | inl none_free ↦
      let nothing : pipe_free p ≡ 0 = ground arith in
      (p, ground arith, rw nothing (rw append-nil refl), v)
  | inr free ↦
      let room : 0 < pipe_free p = ground arith in
      let one = free-put p c v room in
      let used = used_of_free p room in
      let (p', result, bytes, valid) =
        write_loop-Fills cs (written + 1) (put p c) (put-IsValid p c v used)
          (rw (read_refs-put p c) readers) (omega arith) in
      (
        p',
        rw (free, write_loop) (result ∙ ap (λ n. write_sleeps n p') (omega arith)),
        bytes
            ∙ ap (λ xs. xs ++ take (pipe_free (put p c)) cs) (contents-put p c v used)
            ∙ append_assoc (contents p) (c ∷ []) (take (pipe_free (put p c)) cs)
            ∙ ap (◌++◌ (contents p)) (sym (take-one (pipe_free p) (pipe_free (put p c)) c cs one)),
        valid,
      )
]

-- A write of more than fits, into a pipe that some reader holds open, stores what fits behind the
-- bytes that wait and then sleeps, with that many bytes written and valid indices.
pipe_write_full :
    (src : List ℕ) (p : Pipe)
    → IsValid p
    → 0 < p.read_refs
    → 4095 < length src + length (contents p)
    → (p' : Pipe) × (pipe_write [] src p ≡ write_sleeps (4095 - length (contents p)) p')
      × (contents p' ≡ contents p ++ take (4095 - length (contents p)) src)
      × IsValid p'
unfolding pipe_write
pipe_write_full src p v readers full =
    let open_end : (p.read_refs == 0) ≡ false = ground arith in
    let room : 4095 - length (contents p) ≡ pipe_free p = omega (arith, pipe_free-length p v) in
    let (p', result, bytes, valid) =
      write_loop-Fills src 0 p v readers (omega (arith, pipe_free-length p v)) in
    (
      p',
      rw open_end (result ∙ ap (λ n. write_sleeps n p') (omega (arith, pipe_free-length p v))),
      bytes ∙ ap (λ n. contents p ++ take n src) (sym room),
      valid,
    )
