-- ===== src/Pipe/Tests.antt =====
-- Pipes at concrete states: the witnesses.
use luminary.Base.{◌+◌, ◌<◌, ◌≡◌, refl, false, [], ◌∷◌, ◌++◌, none, some, arith, length, take, drop}
use luminary.Pipe.{Pipe, pipe_read, read, pipe_write, wrote, pipe_used, put}
use luminary.Pipe.Ring.{IsValid, length-contents, contents}
use luminary.Pipe.Io.{pipe_read_some, pipe_write_fits}
use luminary.Pipe.Table.{PipeTable, new_pipe, pipe_notify_close}
use luminary.Pipe.Table.Refs.{FewRefs}
use luminary.Pipe.Table.Close.{
  emptied, ends, freed_nodes, kfrees, refs, held, Keeps, pipe_notify_close_lem,
}

-- Two bytes wait across the wrap of the indices.
abbrev wrapped : Pipe
wrapped = record { buf = λ i. i; head = 1; tail = 4294967295; write_refs = 1; read_refs = 1 }

wrapped-IsValid : IsValid wrapped
wrapped-IsValid = omega arith

two_wait : 0 < length (contents wrapped)
unfolding pipe_used
two_wait = omega arith

pipe_read_some_example :
    (p' : Pipe) × (pipe_read false [] 1 wrapped ≡ read (take 1 (contents wrapped)) p')
    × (contents p' ≡ drop 1 (contents wrapped))
    × IsValid p'
pipe_read_some_example = pipe_read_some false [] 1 wrapped wrapped-IsValid two_wait

abbrev write_five : Pipe → Pipe
write_five p = put p 5

no_bytes : length (contents new_pipe) ≡ 0
unfolding pipe_used
no_bytes = refl

pipe_write_fits_example :
    (p' : Pipe) × (pipe_write [] (1 ∷ 2 ∷ 3 ∷ []) new_pipe ≡ wrote 3 p')
    × (contents p' ≡ contents new_pipe ++ (1 ∷ 2 ∷ 3 ∷ []))
    × IsValid p'
pipe_write_fits_example =
    pipe_write_fits [] (1 ∷ 2 ∷ 3 ∷ []) new_pipe (omega arith) (omega arith)
      (omega (arith, no_bytes))

-- One byte still fits.
abbrev nearly_full : Pipe
nearly_full = record { buf = λ i. i; head = 4095; tail = 1; write_refs = 1; read_refs = 1 }

one_fits : 4095 < 2 + length (contents nearly_full)
unfolding pipe_used
one_fits = omega (arith, length-contents nearly_full)

abbrev table : PipeTable
table =
    record { ring = some (record new_pipe { write_refs = 0 }); read_node = 10; write_node = 20 }
    ∷ record { ring = none; read_node = 0; write_node = 0 }
    ∷ []

table-FewRefs : FewRefs table
unfolding FewRefs
table-FewRefs = ((omega arith, omega arith, omega arith), (tt, tt))

pipe_notify_close_lem_example :
    let (table', effects) = pipe_notify_close 10 table in
    (kfrees effects ≡ length (emptied table table'))
    × (freed_nodes effects ≡ ends (emptied table table'))
    × Keeps table table'
    × (refs table ≡ refs table' + held 10 table)
    × FewRefs table'
pipe_notify_close_lem_example = pipe_notify_close_lem 10 table table-FewRefs
