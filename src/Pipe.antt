-- ===== src/Pipe.antt =====
-- Pipes, src/kernel/pipe.c: the ring buffer and the operations on its two ends. The indices run
-- freely over 32 bits and are masked at each access. The sixteen macro-generated pairs of
-- operations are one pair here, over the pipe of their slot; Table holds the slots.
--
-- An operation that must wait executes `hlt` with interrupts on, and other tasks may use the pipe
-- meanwhile. What they make of it during each wait is the argument `wakes`; when the list is used
-- up the task still sleeps.
pub mod Ring
pub mod Io
pub mod Table
mod Tests
use luminary.Base.{
  ℕ, zero, suc, ◌+◌, ◌-◌, ◌%◌, ◌^◌, Bool, true, false, ◌&&◌, ◌||◌, List, [], ◌∷◌, ◌++◌, ltb, ◌==◌,
  if◌then◌else◌, length, update,
}

abbrev pub pipe_buf_size : ℕ
pipe_buf_size = 4096

abbrev pub u32 : ℕ
u32 = 2 ^ 32

-- `struct pipe`; the two counts are bytes.
pub record Pipe : Type 0 where
  pub buf : ℕ → ℕ
  pub head : ℕ
  pub tail : ℕ
  pub write_refs : ℕ
  pub read_refs : ℕ

-- `(head - tail) & PIPE_MASK`
pub pipe_used : Pipe → ℕ
pipe_used p = (p.head + u32 - p.tail) % u32 % pipe_buf_size

pub pipe_free : Pipe → ℕ
unfolding pipe_used
pipe_free p = pipe_buf_size - 1 - pipe_used p

-- `p->buf[p->head & PIPE_MASK] = c; p->head++;`
pub put : Pipe → ℕ → Pipe
put p c = record p { buf = update p.buf (p.head % pipe_buf_size) c; head = (p.head + 1) % u32 }

-- `p->buf[p->tail & PIPE_MASK]`, and `p->tail++`
pub oldest : Pipe → ℕ
oldest p = p.buf (p.tail % pipe_buf_size)

pub advance : Pipe → Pipe
advance p = record p { tail = (p.tail + 1) % u32 }

-- Drops what does not fit. The count written, and the pipe.
pub pipe_write_nb : Pipe → List ℕ → ℕ × Pipe
pipe_write_nb p [] = (0, p)
pipe_write_nb p (c ∷ cs) =
    let (written, p') = pipe_write_nb (put p c) cs in
    if ltb 0 (pipe_free p) then (suc written, p') else (0, p)

abbrev pub Wakes : Type 0
Wakes = List (Pipe → Pipe)

pub data ReadResult : Type 0 where
  read : (bytes : List ℕ) → Pipe → ReadResult
  read_sleeps : Pipe → ReadResult

-- The loop of `pipe_read`, with room for so many more bytes; `out` is what it has stored.
pub read_loop : (nonblock : Bool) → Wakes → (room : ℕ) → (out : List ℕ) → Pipe → ReadResult
read_loop nonblock wakes zero out p = read out p
read_loop nonblock [] (suc room) out p = elim (pipe_used p == 0) [
  | true ↦ if p.write_refs == 0 || ltb 0 (length out) || nonblock then read out p else read_sleeps p
  | false ↦ read_loop nonblock [] room (out ++ (oldest p ∷ [])) (advance p)
]
read_loop nonblock (wake ∷ wakes) (suc room) out p = elim (pipe_used p == 0) [
  | true ↦ elim (p.write_refs == 0 || ltb 0 (length out) || nonblock) [
    | true ↦ read out p
    | false ↦ read_loop nonblock wakes (suc room) out (wake p)
  ]
  | false ↦ read_loop nonblock (wake ∷ wakes) room (out ++ (oldest p ∷ [])) (advance p)
]

-- `nonblock` is `running_task->read_nonblock`.
pub pipe_read : (nonblock : Bool) → Wakes → (len : ℕ) → Pipe → ReadResult
pipe_read nonblock wakes len p = read_loop nonblock wakes len [] p

pub data WriteResult : Type 0 where
  wrote : ℕ → Pipe → WriteResult
  broken : Pipe → WriteResult
  write_sleeps : ℕ → Pipe → WriteResult

-- The loop of `pipe_write`, over the bytes that are left.
pub write_loop : Wakes → List ℕ → (written : ℕ) → Pipe → WriteResult
write_loop wakes [] written p = wrote written p
write_loop [] (c ∷ cs) written p = elim (pipe_free p == 0) [
  | true ↦ if p.read_refs == 0 then broken p else write_sleeps written p
  | false ↦ write_loop [] cs (written + 1) (put p c)
]
write_loop (wake ∷ wakes) (c ∷ cs) written p = elim (pipe_free p == 0) [
  | true ↦ elim (p.read_refs == 0) [
    | true ↦ broken p
    | false ↦ write_loop wakes (c ∷ cs) written (wake p)
  ]
  | false ↦ write_loop (wake ∷ wakes) cs (written + 1) (put p c)
]

-- `broken` is the return value -1.
pub pipe_write : Wakes → List ℕ → Pipe → WriteResult
pipe_write wakes src p = if p.read_refs == 0 then broken p else write_loop wakes src 0 p
